-- ===== src/Common/Post.antt =====
-- Postconditions of operations that return, fail or panic: of a result and a state, of an error and a
-- state, and none after a panic.
use mathlib.Core.Path.{◌≡◌, refl}
use mathlib.Core.Bool.{Bool, true, false}
use mathlib.Core.Option.{Option, none, some}
use wayland_rs.Common.Results.{Outcome, returns, fails, panics, M, bind_outcome, unwrap, assert}

module _ {S E : Type 0} where
  abbrev pub Post :
      {A : Type 0} → (S → A → Type 0) → (S → E → Type 0) → Outcome (S × A) (S × E) → Type 0
  Post R F (returns (s, a)) = R s a
  Post R F (fails (s, x)) = F s x
  Post R F panics = Unit {0}

  pub Post-bind :
      {A B : Type 0} (R : S → A → Type 0) (Q : S → B → Type 0) (F : S → E → Type 0)
      → (o : Outcome (S × A) (S × E)) (f : A → M S E B) → Post R F o
      → ((a : A) (s : S) → R s a → Post Q F (f a s))
      → Post Q F (bind_outcome f o)
  Post-bind R Q F (returns (s, a)) f p g = g a s p
  Post-bind R Q F (fails (s, x)) f p g = p
  Post-bind R Q F panics f p g = tt

  -- `unwrap` and `assert` leave the state alone.
  pub Post-unwrap :
      {A : Type 0} (R : S → A → Type 0) (F : S → E → Type 0) (o : Option A) (s : S)
      → ((a : A) → o ≡ some a → R s a)
      → Post R F (unwrap o s)
  Post-unwrap R F none s h = tt
  Post-unwrap R F (some a) s h = h a refl

  pub Post-assert :
      (R : S → Unit {0} → Type 0) (F : S → E → Type 0) (b : Bool) (s : S)
      → (b ≡ true → R s tt)
      → Post R F (assert b s)
  Post-assert R F true s h = h refl
  Post-assert R F false s h = tt
