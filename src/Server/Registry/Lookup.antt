-- ===== src/Server/Registry/Lookup.antt =====
-- The ids of globals: one finds its own global and no other, also after its place is used again.
use wayland_rs.Common.{
  ℕ, zero, suc, ◌+◌, ◌-◌, ◌<◌, ◌≡◌, refl, ap, sym, ◌∙◌, Bool, true, false, Option, none, some,
  Option-cases, inl, inr, ◌==◌, if◌then◌else◌, length, Result, ok, err, arith, ltb, set, Bool-cases,
  Result-cases,
}
use wayland_rs.Protocol.Interfaces.{InterfaceRef}
use wayland_rs.Client.State.{InvalidId, invalid_id}
use wayland_rs.Map.{slot}
use wayland_rs.Map.Store.{slot-set, slot_out, Filled}
use wayland_rs.Server.{GlobalId, global_id_eq}
use wayland_rs.Server.Registry.{
  Global, RegistryState, place, with_global_id, get_global, disable, mark_disabled, vacate,
}

eq_of_global_id_eq : (a b : GlobalId) → global_id_eq a b ≡ true → a ≡ b
unfolding global_id_eq
eq_of_global_id_eq a b h =
    let p : a.id ≡ b.id = ground arith in let q : a.serial ≡ b.serial = ground arith in cc

global_id_eq_refl : (a : GlobalId) → global_id_eq a a ≡ true
unfolding global_id_eq
global_id_eq_refl a = ground arith

numbers_differ : (a b : GlobalId) → (a.id == b.id) ≡ false → global_id_eq a b ≡ false
unfolding global_id_eq
numbers_differ a b h = rw h refl

invalid_id_unique : (x : InvalidId) → x ≡ invalid_id
invalid_id_unique invalid_id = refl

module _ {H : Type 0} where
  pub place_in :
      (r : RegistryState H) (n : ℕ) (x : Global H)
      → place r n ≡ some x
      → (0 < n) × (n - 1 < length r.globals)
  unfolding place
  place_in r zero x h = absurd (ground arith)
  place_in r (suc i) x h = elim (Bool-cases (ltb i (length r.globals))) [
    | inl e ↦ (omega arith, ground arith)
    | inr e ↦ absurd (ground (arith, slot_out r.globals i))
  ]

  place-set :
      (r : RegistryState H) (n j : ℕ) (v : Option (Global H))
      → 0 < n
      → n - 1 < length r.globals
      → place (record r { globals = set r.globals (n - 1) v }) j ≡ (if n == j then v else place r j)
  unfolding place
  place-set r n zero v h l = ground arith
  place-set r n (suc j) v h l = ground (arith, slot-set r.globals (n - 1) j v)

  get_global-ok :
      (r : RegistryState H) (g : GlobalId) (x : Global H)
      → get_global r g ≡ ok x
      → (place r g.id ≡ some x) × (x.id ≡ g)
  unfolding get_global with_global_id
  get_global-ok r g x h = elim (Option-cases (place r g.id)) [
    | inl e ↦ absurd (ground arith)
    | inr (y, e) ↦ elim (Bool-cases (global_id_eq y.id g)) [
      | inl f ↦
          let p : y ≡ x = ground arith in
          (e ∙ ap some p, ap (λ y. y.id) (sym p) ∙ eq_of_global_id_eq y.id g f)
      | inr f ↦ absurd (ground arith)
    ]
  ]

  -- What the ids find once the place of a global holds something else.
  get_global-set :
      (r : RegistryState H) (g j : GlobalId) (x : Global H) (v : Option (Global H))
      → get_global r g ≡ ok x
      → (global_id_eq g j ≡ false → with_global_id j v ≡ err invalid_id)
      → get_global (record r { globals = set r.globals (g.id - 1) v }) j
        ≡ (if global_id_eq g j then with_global_id j v else get_global r j)
  unfolding get_global with_global_id
  get_global-set r g j x v h other =
      let (at, named) = get_global-ok r g x h in
      let (positive, within) = place_in r g.id x at in
      rw (place-set r g.id j.id v positive within) (elim (Bool-cases (g.id == j.id)) [
        | inl e ↦ elim (Bool-cases (global_id_eq g j)) [
          | inl f ↦ rw (f, e) refl
          | inr f ↦
              let p : g.id ≡ j.id = ground arith in
              let q : place r j.id ≡ some x = ap (place r) (sym p) ∙ at in
              let k : global_id_eq x.id j ≡ false = ap (λ a. global_id_eq a j) named ∙ f in
              rw (f, e, q, k) (other f)
        ]
        | inr e ↦ rw (numbers_differ g j e, e) refl
      ])

  -- A result with the global put down as disabled, if the ids agree.
  abbrev pub marked : Bool → Result (Global H) InvalidId → Result (Global H) InvalidId
  marked true (ok x) = ok (record x { disabled = true })
  marked _ r = r

  pub get_global-vacate :
      (r : RegistryState H) (g j : GlobalId)
      → get_global (vacate g r) j ≡ (if global_id_eq g j then err invalid_id else get_global r j)
  unfolding vacate with_global_id
  get_global-vacate r g j = elim (Result-cases (get_global r g)) [
    | inl (x, e) ↦ rw (e, vacate) (get_global-set r g j x none e (λ _. refl))
    | inr (y, e) ↦ elim (Bool-cases (global_id_eq g j)) [
      | inl f ↦
          rw (e, vacate, f)
            (ap (get_global r) (sym (eq_of_global_id_eq g j f)) ∙ e ∙ ap err (invalid_id_unique y))
      | inr f ↦ rw (e, vacate, f) refl
    ]
  ]

  pub get_global-mark_disabled :
      (r : RegistryState H) (g j : GlobalId) (x : Global H)
      → get_global r g ≡ ok x
      → get_global (mark_disabled r g x) j ≡ marked (global_id_eq g j) (get_global r j)
  unfolding mark_disabled disable with_global_id
  get_global-mark_disabled r g j x e =
      let named = (get_global-ok r g x e).1 in
      get_global-set r g j x (some (disable x)) e (λ f. rw (named, f) refl)
      ∙ elim (Bool-cases (global_id_eq g j)) [
        | inl f ↦
            let p = eq_of_global_id_eq g j f in
            let q : get_global r j ≡ ok x = ap (get_global r) (sym p) ∙ e in
            let k : global_id_eq x.id j ≡ true = ap (λ a. global_id_eq a j) named ∙ f in
            rw (f, q, k) refl
        | inr f ↦ rw f refl
      ]

  pub marked-same :
      (r : RegistryState H) (g j : GlobalId)
      → ((x : Global H) → get_global r g ≡ ok x → x.disabled ≡ true)
      → get_global r j ≡ marked (global_id_eq g j) (get_global r j)
  marked-same r g j h = elim (Bool-cases (global_id_eq g j)) [
    | inl f ↦
        let p = eq_of_global_id_eq g j f in
        elim (Result-cases (get_global r j)) [
          | inl (x, e) ↦
              let d = h x (ap (get_global r) p ∙ e) in
              rw (f, e) (ap (λ b. ok (record x { disabled = b })) d)
          | inr (y, e) ↦ rw (f, e) refl
        ]
    | inr f ↦ rw f refl
  ]

  -- The global that `added` puts into the registry.
  abbrev pub fresh : InterfaceRef → ℕ → H → GlobalId → Global H
  fresh interface version handler g = record {
    id = g;
    interface = interface;
    version = version;
    handler = handler;
    disabled = false;
  }

  pub get_global-Filled :
      (r r' : RegistryState H) {i : ℕ} {a : Global H} (g j : GlobalId)
      → Filled r.globals r'.globals i a
      → a.id ≡ g
      → g.id ≡ i + 1
      → get_global r' j ≡ (if global_id_eq g j then ok a else get_global r j)
  unfolding get_global with_global_id place
  get_global-Filled r r' {i} {a} g j f named p = elim (Bool-cases (g.id == j.id)) [
    | inl e ↦
        let q : j.id ≡ suc i = ground arith in
        let found : place r' j.id ≡ some a =
          ap (place r') q ∙ f.slots i ∙ ap (λ b. if b then some a else slot r.globals i) (same i) in
        let none_before : place r j.id ≡ none = ap (place r) q ∙ f.free in
        rw (found, none_before, named) refl
    | inr e ↦
        let kept : place r' j.id ≡ place r j.id = elsewhere j.id (ground arith) in
        rw (numbers_differ g j e, kept) refl
  ]
    where
      same : (n : ℕ) → (n == n) ≡ true
      same n = ground arith

      elsewhere : (n : ℕ) → (i + 1 == n) ≡ false → place r' n ≡ place r n
      elsewhere zero h = refl
      elsewhere (suc n) h = f.slots n ∙ ground arith
