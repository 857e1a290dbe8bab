-- ===== src/Map/Iterate.antt =====
-- `all_objects` lists exactly what `find` finds.
use wayland_rs.Common.{
  ℕ, zero, suc, ◌+◌, ◌-◌, ◌^◌, ◌≤◌, ◌<◌, ◌≡◌, ◌↔◌, ◌⊎◌, inl, inr, Bool-cases, Option, none, some,
  List, [], ◌∷◌, ◌++◌, arith, leb, length,
}
use wayland_rs.Map.{Object, ObjectMap, server_id_limit, slot, entries, find, all_objects}
use wayland_rs.Map.Bounds.{IsBounded}

-- Membership, with the place kept.
abbrev pub In : {A : Type 0} → A → List A → Type 0
In a [] = ⊥
In a (x ∷ xs) = (x ≡ a) ⊎ In a xs

pub In-append : {A : Type 0} (a : A) (xs ys : List A) → In a (xs ++ ys) → In a xs ⊎ In a ys
In-append a [] ys h = inr h
In-append a (x ∷ xs) ys (inl e) = inl (inl e)
In-append a (x ∷ xs) ys (inr h) = elim (In-append a xs ys h) [ inl k ↦ inl (inr k) | inr k ↦ inr k ]

pub In-append_left : {A : Type 0} (a : A) (xs ys : List A) → In a xs → In a (xs ++ ys)
In-append_left a [] ys h = absurd h
In-append_left a (x ∷ xs) ys (inl e) = inl e
In-append_left a (x ∷ xs) ys (inr h) = inr (In-append_left a xs ys h)

pub In-append_right : {A : Type 0} (a : A) (xs ys : List A) → In a ys → In a (xs ++ ys)
In-append_right a [] ys h = h
In-append_right a (x ∷ xs) ys h = inr (In-append_right a xs ys h)

module _ {A : Type 0} where
  In-entries :
      (b id : ℕ) (a : A) (store : List (Option A))
      → b + length store ≤ 2 ^ 32
      → In (id, a) (entries b store)
      → (b ≤ id) × (id < b + length store) × (slot store (id - b) ≡ some a)
  unfolding entries slot
  In-entries b id a [] r h = absurd h
  In-entries b id a (none ∷ store) r h =
      let (p, q, s) = In-entries (b + 1) id a store (omega arith) h in
      let e : id - b ≡ suc (id - (b + 1)) = omega arith in (omega arith, omega arith, rw e s)
  In-entries b id a (some x ∷ store) r (inl h) =
      let p : id ≡ b = ground arith in
      let q : x ≡ a = ground arith in
      let e : b - b ≡ 0 = omega arith in rw (p, e) (omega arith, omega arith, rw q)
  In-entries b id a (some x ∷ store) r (inr h) =
      let (p, q, s) = In-entries (b + 1) id a store (omega arith) h in
      let e : id - b ≡ suc (id - (b + 1)) = omega arith in (omega arith, omega arith, rw e s)

  entries-In :
      (b k id : ℕ) (a : A) (store : List (Option A))
      → id ≡ b + k
      → b + length store ≤ 2 ^ 32
      → slot store k ≡ some a
      → In (id, a) (entries b store)
  unfolding entries slot
  entries-In b k id a [] e r h = absurd (ground arith)
  entries-In b zero id a (none ∷ store) e r h = absurd (ground arith)
  entries-In b (suc k) id a (none ∷ store) e r h =
      entries-In (b + 1) k id a store (omega arith) (omega arith) h
  entries-In b zero id a (some x ∷ store) e r h = inl (ground arith)
  entries-In b (suc k) id a (some x ∷ store) e r h =
      inr (entries-In (b + 1) k id a store (omega arith) (omega arith) h)

module _ {D : Type 0} where
  -- Where the vectors are within their bounds, `all_objects` yields a pair of an id and an object
  -- exactly when `find` finds that object under that id.
  pub all_objects_iff :
      (m : ObjectMap D) (id : ℕ) (o : Object D)
      → IsBounded m
      → In (id, o) (all_objects m) ↔ (find m id ≡ some o)
  unfolding all_objects find
  all_objects_iff m id o b = (
    λ h. elim (In-append (id, o) (entries 1 m.client_objects) _ h) [
      | inl c ↦ ground (arith, In-entries 1 id o m.client_objects (omega arith) c)
      | inr s ↦ ground (arith, In-entries server_id_limit id o m.server_objects (omega arith) s)
    ],
    λ h. elim (Bool-cases (leb server_id_limit id)) [
      | inl s ↦
          In-append_right (id, o) (entries 1 m.client_objects) _
            (entries-In server_id_limit (id - server_id_limit) id o m.server_objects (ground arith)
              (omega arith) (ground arith))
      | inr c ↦
          In-append_left (id, o) (entries 1 m.client_objects) _
            (entries-In 1 (id - 1) id o m.client_objects (ground arith) (omega arith)
              (ground arith))
    ],
  )
