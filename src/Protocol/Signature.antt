-- ===== src/Protocol/Signature.antt =====
-- What `check_for_signature` and `same_interface` decide.
use wayland_rs.Common.{
  ℕ, ◌≡◌, refl, ap, ◌↔◌, true, List, [], ◌∷◌, arith, bytes_eq_refl, bytes_eq→eq, Bool-cases, inl,
  inr,
}
use wayland_rs.Protocol.{
  Argument, ArgumentType, AllowNull, check_for_signature, same_type, get_type,
}
use wayland_rs.Protocol.Interfaces.{
  Interface, InterfaceRef, anonymous, wl_display, wl_registry, wl_callback, generated, deref,
  ptr_eq, same_interface,
}

-- An argument is of a wire type; whether null is allowed plays no part.
pub data HasType {Oid Fd : Type 0} : Argument Oid Fd → ArgumentType → Type 0 where
  int : {i : _} → HasType (Argument.int i) ArgumentType.int
  uint : {u : ℕ} → HasType (Argument.uint u) ArgumentType.uint
  fixed : {f : _} → HasType (Argument.fixed f) ArgumentType.fixed
  str : {s : _} {n : AllowNull} → HasType (Argument.str s) (ArgumentType.str n)
  object : {o : Oid} {n : AllowNull} → HasType (Argument.object o) (ArgumentType.object n)
  new_id : {o : Oid} → HasType (Argument.new_id o) ArgumentType.new_id
  array : {a : List ℕ} → HasType (Argument.array a) ArgumentType.array
  fd : {f : Fd} → HasType (Argument.fd f) ArgumentType.fd

module _ {Oid Fd : Type 0} where
  -- As many arguments as types, each of its type.
  abbrev pub Fits : List ArgumentType → List (Argument Oid Fd) → Type 0
  Fits [] [] = Unit {0}
  Fits (t ∷ ts) (a ∷ args) = HasType a t × Fits ts args
  Fits _ _ = ⊥

  same_type→HasType :
      (a : Argument Oid Fd) (t : ArgumentType) → same_type (get_type a) t ≡ true → HasType a t
  unfolding same_type get_type
  same_type→HasType (Argument.int i) ArgumentType.int h = HasType.int
  same_type→HasType (Argument.uint u) ArgumentType.uint h = HasType.uint
  same_type→HasType (Argument.fixed f) ArgumentType.fixed h = HasType.fixed
  same_type→HasType (Argument.str s) (ArgumentType.str n) h = HasType.str
  same_type→HasType (Argument.object o) (ArgumentType.object n) h = HasType.object
  same_type→HasType (Argument.new_id o) ArgumentType.new_id h = HasType.new_id
  same_type→HasType (Argument.array a) ArgumentType.array h = HasType.array
  same_type→HasType (Argument.fd f) ArgumentType.fd h = HasType.fd
  same_type→HasType _ _ h = cc

  HasType→same_type :
      {a : Argument Oid Fd} {t : ArgumentType} → HasType a t → same_type (get_type a) t ≡ true
  unfolding same_type get_type
  HasType→same_type HasType.int = refl
  HasType→same_type HasType.uint = refl
  HasType→same_type HasType.fixed = refl
  HasType→same_type HasType.str = refl
  HasType→same_type HasType.object = refl
  HasType→same_type HasType.new_id = refl
  HasType→same_type HasType.array = refl
  HasType→same_type HasType.fd = refl

  check→Fits :
      (ts : List ArgumentType) (args : List (Argument Oid Fd))
      → check_for_signature ts args ≡ true
      → Fits ts args
  unfolding check_for_signature
  check→Fits [] [] h = tt
  check→Fits [] (a ∷ args) h = ground arith
  check→Fits (t ∷ ts) [] h = ground arith
  check→Fits (t ∷ ts) (a ∷ args) h =
      (same_type→HasType a t (ground arith), check→Fits ts args (ground arith))

  Fits→check :
      (ts : List ArgumentType) (args : List (Argument Oid Fd))
      → Fits ts args
      → check_for_signature ts args ≡ true
  unfolding check_for_signature
  Fits→check [] [] h = refl
  Fits→check [] (a ∷ args) h = absurd h
  Fits→check (t ∷ ts) [] h = absurd h
  Fits→check (t ∷ ts) (a ∷ args) h = ground (arith, HasType→same_type h.0, Fits→check ts args h.1)

  -- `check_for_signature` accepts exactly the argument lists that have one argument for each type of
  -- the signature, in order, each of that wire type.
  pub check_for_signature_iff :
      (ts : List ArgumentType) (args : List (Argument Oid Fd))
      → (check_for_signature ts args ≡ true) ↔ Fits ts args
  check_for_signature_iff ts args = (check→Fits ts args, Fits→check ts args)

module _ (statics : ℕ → Interface) where
  ptr_eq→eq : (a b : InterfaceRef) → ptr_eq a b ≡ true → a ≡ b
  unfolding ptr_eq
  ptr_eq→eq anonymous anonymous h = refl
  ptr_eq→eq wl_display wl_display h = refl
  ptr_eq→eq wl_registry wl_registry h = refl
  ptr_eq→eq wl_callback wl_callback h = refl
  ptr_eq→eq (generated a) (generated b) h = ground arith
  ptr_eq→eq _ _ h = cc

  same_interface→name :
      (a b : InterfaceRef)
      → same_interface statics a b ≡ true
      → (deref statics a).name ≡ (deref statics b).name
  unfolding same_interface
  same_interface→name a b h = elim (Bool-cases (ptr_eq a b)) [
    | inl e ↦ ap (λ r. (deref statics r).name) (ptr_eq→eq a b e)
    | inr e ↦ bytes_eq→eq _ _ (rw (← h) (rw e))
  ]

  name→same_interface :
      (a b : InterfaceRef)
      → (deref statics a).name ≡ (deref statics b).name
      → same_interface statics a b ≡ true
  unfolding same_interface
  name→same_interface a b e = rw (← e, bytes_eq_refl (deref statics a).name) (ground arith)

  -- Two interface pointers count as the same interface exactly when the names that stand behind them
  -- are equal: the test of the pointers is a shortcut only.
  pub same_interface_iff :
      (a b : InterfaceRef)
      → (same_interface statics a b ≡ true) ↔ ((deref statics a).name ≡ (deref statics b).name)
  same_interface_iff a b = (same_interface→name a b, name→same_interface a b)
