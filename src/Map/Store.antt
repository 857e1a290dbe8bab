-- ===== src/Map/Store.antt =====
-- The places of one vector of the map.
use wayland_rs.Common.{
  ℕ, zero, suc, ◌+◌, ◌%◌, ◌^◌, ◌≤◌, ◌<◌, ◌≡◌, refl, ap, ◌∙◌, ◌&&◌, Bool-cases, inl, inr, Option,
  none, some, List, [], ◌∷◌, ◌++◌, arith, ltb, ◌==◌, if◌then◌else◌, length, get_elem?, set, ok,
  length-set, length-append, get_elem?_lt, Option-cases,
}
use wayland_rs.Map.{slot, position_free, insert_in, insert_in_at, fill_vacant}

module _ {A : Type 0} where
  pub slot-set :
      (store : List (Option A)) (i j : ℕ) (v : Option A)
      → slot (set store i v) j ≡ (if i == j && ltb i (length store) then v else slot store j)
  unfolding slot
  slot-set [] i j v = ground arith
  slot-set (x ∷ store) zero zero v = ground arith
  slot-set (x ∷ store) zero (suc j) v = ground arith
  slot-set (x ∷ store) (suc i) zero v = ground arith
  slot-set (x ∷ store) (suc i) (suc j) v = ground (arith, slot-set store i j v)

  pub slot-append :
      (store : List (Option A)) (j : ℕ) (a : A)
      → slot (store ++ some a ∷ []) j ≡ (if length store == j then some a else slot store j)
  unfolding slot
  slot-append [] zero a = ground arith
  slot-append [] (suc j) a = ground arith
  slot-append (x ∷ store) zero a = ground arith
  slot-append (x ∷ store) (suc j) a = ground (arith, slot-append store j a)

  pub slot_out : (store : List (Option A)) (j : ℕ) → length store ≤ j → slot store j ≡ none
  unfolding slot
  slot_out [] j h = refl
  slot_out (x ∷ store) zero h = absurd (omega arith)
  slot_out (x ∷ store) (suc j) h = slot_out store j (omega arith)

  -- The place that `position` finds is free, and none before it is.
  pub position_free-some :
      (store : List (Option A)) (i : ℕ)
      → position_free store ≡ some i
      → (i < length store) × (slot store i ≡ none)
  unfolding position_free slot
  position_free-some [] i h = absurd (ground arith)
  position_free-some (none ∷ store) i h = let e : i ≡ 0 = ground arith in rw e (omega arith, refl)
  position_free-some (some a ∷ store) i h = elim (Option-cases (position_free store)) [
    | inl e ↦ absurd (ground arith)
    | inr (k, e) ↦
        let p : i ≡ suc k = ground arith in
        let (q, r) = position_free-some store k e in rw p (omega arith, r)
  ]

  pub position_free-least :
      (store : List (Option A)) (i j : ℕ)
      → position_free store ≡ some i
      → j < i
      → (a : A) × (slot store j ≡ some a)
  unfolding position_free slot
  position_free-least [] i j h l = absurd (ground arith)
  position_free-least (none ∷ store) i j h l = absurd (ground arith)
  position_free-least (some a ∷ store) i zero h l = (a, refl)
  position_free-least (some a ∷ store) i (suc j) h l = elim (Option-cases (position_free store)) [
    | inl e ↦ absurd (ground arith)
    | inr (k, e) ↦ position_free-least store k j e (ground arith)
  ]

  pub position_free-none :
      (store : List (Option A)) (j : ℕ)
      → position_free store ≡ none
      → j < length store
      → (a : A) × (slot store j ≡ some a)
  unfolding position_free slot
  position_free-none [] j h l = absurd (omega arith)
  position_free-none (none ∷ store) j h l = absurd (ground arith)
  position_free-none (some a ∷ store) zero h l = (a, refl)
  position_free-none (some a ∷ store) (suc j) h l = elim (Option-cases (position_free store)) [
    | inl e ↦ position_free-none store j e (omega arith)
    | inr (k, e) ↦ absurd (ground arith)
  ]

  -- What both kinds of insertion do to a vector at the place `i`.
  pub record Filled (store store' : List (Option A)) (i : ℕ) (a : A) : Type 0 where
    pub within : i ≤ length store
    pub free : slot store i ≡ none
    pub slots : (j : ℕ) → slot store' j ≡ (if i == j then some a else slot store j)
    pub grows : length store ≤ length store'
    pub by_one : length store' ≤ length store + 1
    pub holds : i < length store'

  pub Filled-append :
      (store : List (Option A)) (a : A) → Filled store (store ++ some a ∷ []) (length store) a
  Filled-append store a = record {
    within = omega arith;
    free = slot_out store (length store) (omega arith);
    slots = λ j. slot-append store j a;
    grows = omega (arith, length-append store (some a ∷ []));
    by_one = omega (arith, length-append store (some a ∷ []));
    holds = omega (arith, length-append store (some a ∷ []));
  }

  pub Filled-set :
      (store : List (Option A)) (i : ℕ) (a : A)
      → i < length store
      → slot store i ≡ none
      → Filled store (set store i (some a)) i a
  Filled-set store i a h free = record {
    within = omega arith;
    free = free;
    slots = λ j. ground (arith, slot-set store i j (some a));
    grows = omega (arith, length-set store i (some a));
    by_one = omega (arith, length-set store i (some a));
    holds = omega (arith, length-set store i (some a));
  }

  slot-get : (store : List (Option A)) (i : ℕ) → get_elem? store i ≡ some none → slot store i ≡ none
  unfolding slot
  slot-get store i h = rw (h, slot)

  fill_vacant-ok :
      (store store' : List (Option A)) (i : ℕ) (a : A) (place : Option (Option A))
      → fill_vacant store i a place ≡ ok store'
      → (place ≡ some none) × (store' ≡ set store i (some a))
  unfolding fill_vacant
  fill_vacant-ok store store' i a (some none) h = (refl, ground arith)
  fill_vacant-ok store store' i a (some (some b)) h = absurd (ground arith)
  fill_vacant-ok store store' i a none h = absurd (ground arith)

  get_elem?-some :
      (store : List (Option A)) (i : ℕ)
      → i < length store
      → (v : Option A) × (get_elem? store i ≡ some v)
  get_elem?-some [] i h = absurd (omega arith)
  get_elem?-some (x ∷ store) zero h = (x, refl)
  get_elem?-some (x ∷ store) (suc i) h = get_elem?-some store i (omega arith)

  get_elem?_vacant :
      (store : List (Option A)) (i : ℕ)
      → i < length store
      → slot store i ≡ none
      → get_elem? store i ≡ some none
  unfolding slot
  get_elem?_vacant store i h free =
      let (v, p) = get_elem?-some store i h in
      let q : v ≡ none = rw (p, slot) at free in p ∙ ap some q

  -- `insert_in_at` fills the place that it is given, if that is free or the next one, and fails
  -- otherwise.
  pub insert_in_at-Filled :
      (store store' : List (Option A)) (i : ℕ) (a : A)
      → insert_in_at store i a ≡ ok store'
      → Filled store store' i a
  unfolding insert_in_at
  insert_in_at-Filled store store' i a h = elim (Bool-cases (i == length store)) [
    | inl e ↦
        let p : i ≡ length store = ground arith in
        let q : store' ≡ store ++ some a ∷ [] = ground arith in rw (q, p) (Filled-append store a)
    | inr e ↦
        let (free, q) = fill_vacant-ok store store' i a (get_elem? store i) (ground arith) in
        rw q (Filled-set store i a (get_elem?_lt store i none free) (slot-get store i free))
  ]

  pub insert_in_at-vacant :
      (store : List (Option A)) (i : ℕ) (a : A)
      → i ≤ length store
      → slot store i ≡ none
      → (store' : List (Option A)) × (insert_in_at store i a ≡ ok store')
  unfolding insert_in_at slot
  insert_in_at-vacant store i a h free = elim (Bool-cases (i == length store)) [
    | inl e ↦ (store ++ some a ∷ [], ground arith)
    | inr e ↦ (set store i (some a), ground (arith, get_elem?_vacant store i))
  ]

  pub insert_in-Filled :
      (store : List (Option A)) (a : A)
      → length store < 2 ^ 32
      → Filled store (insert_in store a).0 (insert_in store a).1 a
  unfolding insert_in
  insert_in-Filled store a h = elim (Option-cases (position_free store)) [
    | inl e ↦
        let p : length store % 2 ^ 32 ≡ length store = omega arith in
        rw (e, insert_in) (rw p (Filled-append store a))
    | inr (i, e) ↦
        let (lt, free) = position_free-some store i e in
        let p : i % 2 ^ 32 ≡ i = omega arith in
        rw (e, insert_in) (rw p (Filled-set store i a lt free))
  ]

  -- No place before the one that `insert_in` picks was free.
  pub insert_in-least :
      (store : List (Option A)) (a : A) (j : ℕ)
      → length store < 2 ^ 32
      → j < (insert_in store a).1
      → (b : A) × (slot store j ≡ some b)
  unfolding insert_in
  insert_in-least store a j h l = elim (Option-cases (position_free store)) [
    | inl e ↦ position_free-none store j e (ground arith)
    | inr (i, e) ↦ position_free-least store i j e (ground (arith, position_free-some store i e))
  ]
