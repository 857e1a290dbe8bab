-- ===== src/Common/Results.antt =====
-- `Result`, the outcome of an operation that may also panic, and the monad of such operations over
-- a state that they change also when they fail.
use mathlib.Core.Path.{◌≡◌, refl}
use mathlib.Core.Logic.{◌⊎◌, inl, inr}
use mathlib.Core.Bool.{Bool, true, false}
use mathlib.Core.Option.{Option, none, some}

-- std::result::Result
pub data Result {ℓ κ} (A : Type ℓ) (E : Type κ) : Type (ℓ ⊔ κ) where
  ok : A → Result A E
  err : E → Result A E

-- What a call that can panic ends with.
pub data Outcome {ℓ κ} (A : Type ℓ) (E : Type κ) : Type (ℓ ⊔ κ) where
  returns : A → Outcome A E
  fails : E → Outcome A E
  panics : Outcome A E

pub Result-cases {ℓ κ} :
    {A : Type ℓ} {E : Type κ} (r : Result A E) → ((a : A) × (r ≡ ok a)) ⊎ ((e : E) × (r ≡ err e))
Result-cases (ok a) = inl (a, refl)
Result-cases (err e) = inr (e, refl)

-- An operation on a state `S`.
abbrev pub M : Type 0 → Type 0 → Type 0 → Type 0
M S E A = S → Outcome (S × A) (S × E)

module _ {S E : Type 0} where
  -- A helper by clauses, so that a chain computes on each outcome.
  abbrev pub bind_outcome :
      {A B : Type 0} → (A → M S E B) → Outcome (S × A) (S × E) → Outcome (S × B) (S × E)
  bind_outcome f (returns (s, a)) = f a s
  bind_outcome f (fails x) = fails x
  bind_outcome f panics = panics

  infixl 5 ◌>>=◌ ◌>>◌
  abbrev pub ◌>>=◌ : {A B : Type 0} → M S E A → (A → M S E B) → M S E B
  ◌>>=◌ m f s = bind_outcome f (m s)

  abbrev pub ◌>>◌ : {B : Type 0} → M S E (Unit {0}) → M S E B → M S E B
  m >> n = m >>= λ _. n

  abbrev pub pure : {A : Type 0} → A → M S E A
  pure a s = returns (s, a)

  abbrev pub fail : {A : Type 0} → E → M S E A
  fail x s = fails (s, x)

  abbrev pub panic : {A : Type 0} → M S E A
  panic s = panics

  -- `unwrap` and `expect`
  abbrev pub unwrap : {A : Type 0} → Option A → M S E A
  unwrap (some a) = pure a
  unwrap none = panic

  -- `if !test { panic!() }`
  abbrev pub assert : Bool → M S E (Unit {0})
  assert true = pure tt
  assert false = panic
