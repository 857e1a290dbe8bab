-- ===== src/Map/Lookup.antt =====
-- What `find` sees after each operation of the map.
use wayland_rs.Common.{
  ℕ, ◌-◌, ◌≤◌, ◌<◌, ◌≡◌, ◌↔◌, refl, Bool-cases, Option-cases, inl, inr, Option, none, some, List,
  arith, leb, ◌==◌, if◌then◌else◌, length, Result, ok, err,
}
use wayland_rs.Map.{
  Object, ObjectMap, server_id_limit, slot, find, remove, insert_at, with_object, with_slot,
  in_server, in_client,
}
use wayland_rs.Map.Store.{Filled, slot-set, slot_out, insert_in_at-Filled, insert_in_at-vacant}

abbrev pub place_of : ℕ → ℕ
place_of id = if leb server_id_limit id then id - server_id_limit else id - 1

abbrev pub updated : {A T : Type 0} → (A → A × T) → Option A → Option A
updated f (some a) = some (f a).0
updated f none = none

abbrev pub answer : {A T : Type 0} → (A → A × T) → Option A → Result T (Unit {0})
answer f (some a) = ok (f a).1
answer f none = err tt

module _ {A T : Type 0} where
  slot-with_slot :
      (store : List (Option A)) (i j : ℕ) (f : A → A × T)
      → slot (with_slot store i f).0 j ≡ (if i == j then updated f (slot store i) else slot store j)
  unfolding with_slot
  slot-with_slot store i j f = elim (Option-cases (slot store i)) [
    | inl e ↦ rw (e, with_slot) (ground arith)
    | inr (a, e) ↦
        rw (e, with_slot) (ground (arith, slot-set store i j (some (f a).0), slot_out store i))
  ]

  with_slot-answer :
      (store : List (Option A)) (i : ℕ) (f : A → A × T)
      → (with_slot store i f).1 ≡ answer f (slot store i)
  unfolding with_slot
  with_slot-answer store i f = elim (Option-cases (slot store i)) [
    | inl e ↦ rw (e, with_slot)
    | inr (a, e) ↦ rw (e, with_slot)
  ]

module _ {D : Type 0} where
  -- After `remove` the id is unknown, and every other lookup is as before.
  pub find-remove :
      (m : ObjectMap D) (i j : ℕ) → find (remove m i) j ≡ (if i == j then none else find m j)
  unfolding find remove
  find-remove m i j = ground (
    arith,
    slot-set m.server_objects (i - server_id_limit) (j - server_id_limit) none,
    slot-set m.client_objects (i - 1) (j - 1) none,
    slot_out m.server_objects (j - server_id_limit),
    slot_out m.client_objects (j - 1),
  )

  -- The vector and the place that an id stands for.
  abbrev pub vector_of : ObjectMap D → ℕ → List (Option (Object D))
  vector_of m id = if leb server_id_limit id then m.server_objects else m.client_objects

  -- What a successful insertion did.
  pub record Inserted (m m' : ObjectMap D) (id : ℕ) (o : Object D) : Type 0 where
    pub nonnull : 0 < id
    pub next : place_of id ≤ length (vector_of m id)
    pub unused : find m id ≡ none
    pub found : (j : ℕ) → find m' j ≡ (if id == j then some o else find m j)

  in_server_ok :
      (m m' : ObjectMap D) (r : Result (List (Option (Object D))) (Unit {0}))
      → in_server m r ≡ ok m'
      → (store : List (Option (Object D))) × (r ≡ ok store)
        × (m' ≡ record m { server_objects = store })
  unfolding in_server
  in_server_ok m m' (ok store) h = (store, refl, ground arith)
  in_server_ok m m' (err x) h = absurd (ground arith)

  in_client_ok :
      (m m' : ObjectMap D) (r : Result (List (Option (Object D))) (Unit {0}))
      → in_client m r ≡ ok m'
      → (store : List (Option (Object D))) × (r ≡ ok store)
        × (m' ≡ record m { client_objects = store })
  unfolding in_client
  in_client_ok m m' (ok store) h = (store, refl, ground arith)
  in_client_ok m m' (err x) h = absurd (ground arith)

  pub server_Inserted :
      (m : ObjectMap D) (store : List (Option (Object D))) (id : ℕ) (o : Object D)
      → server_id_limit ≤ id
      → Filled m.server_objects store (id - server_id_limit) o
      → Inserted m (record m { server_objects = store }) id o
  unfolding find
  server_Inserted m store id o h f = record {
    nonnull = omega arith;
    next = ground (arith, f.within);
    unused = ground (arith, f.free);
    found = λ j. ground (arith, f.slots (j - server_id_limit));
  }

  pub client_Inserted :
      (m : ObjectMap D) (store : List (Option (Object D))) (id : ℕ) (o : Object D)
      → 0 < id
      → id < server_id_limit
      → Filled m.client_objects store (id - 1) o
      → Inserted m (record m { client_objects = store }) id o
  unfolding find
  client_Inserted m store id o h k f = record {
    nonnull = h;
    next = ground (arith, f.within);
    unused = ground (arith, f.free);
    found = λ j. ground (arith, f.slots (j - 1));
  }

  -- `insert_at` succeeds only on a usable id, and then adds the object and changes no other lookup.
  pub insert_at-Inserted :
      (m m' : ObjectMap D) (id : ℕ) (o : Object D) → insert_at m id o ≡ ok m' → Inserted m m' id o
  unfolding insert_at
  insert_at-Inserted m m' id o h = elim (Bool-cases (id == 0)) [
    | inl e ↦ absurd (ground arith)
    | inr e ↦ elim (Bool-cases (leb server_id_limit id)) [
      | inl f ↦
          let (store, p, q) = in_server_ok m m' _ (rw (e, f) at h) in
          rw q (
            server_Inserted m store id o (ground arith)
              (insert_in_at-Filled m.server_objects store (id - server_id_limit) o p))
      | inr f ↦
          let (store, p, q) = in_client_ok m m' _ (rw (e, f) at h) in
          rw q (
            client_Inserted m store id o (ground arith) (ground arith)
              (insert_in_at-Filled m.client_objects store (id - 1) o p))
    ]
  ]

  -- It succeeds on every such id: not null, not in use, and at most the next of its vector.
  pub insert_at_succeeds :
      (m : ObjectMap D) (id : ℕ) (o : Object D)
      → 0 < id
      → place_of id ≤ length (vector_of m id)
      → find m id ≡ none
      → (m' : ObjectMap D) × (insert_at m id o ≡ ok m')
  unfolding insert_at
  insert_at_succeeds m id o h next unused = elim (Bool-cases (leb server_id_limit id)) [
    | inl f ↦
        let (store, p) =
          insert_in_at-vacant m.server_objects (id - server_id_limit) o (rw f at next)
            (unfold find in ground arith) in
        (record m { server_objects = store }, ground arith)
    | inr f ↦
        let (store, p) =
          insert_in_at-vacant m.client_objects (id - 1) o (rw f at next)
            (unfold find in ground arith) in
        (record m { client_objects = store }, ground arith)
  ]

  -- `insert_at` accepts exactly the ids that are not null, not in use, and at most the next of their
  -- namespace.
  pub insert_at_iff :
      (m : ObjectMap D) (id : ℕ) (o : Object D)
      → ((m' : ObjectMap D) × (insert_at m id o ≡ ok m'))
        ↔ ((0 < id) × (place_of id ≤ length (vector_of m id)) × (find m id ≡ none))
  insert_at_iff m id o = (
    λ r. let i = insert_at-Inserted m r.0 id o r.1 in (i.nonnull, i.next, i.unused),
    λ c. insert_at_succeeds m id o c.0 c.1 c.2,
  )

  -- `with` gives its closure the object with the id and returns its answer, and on an unknown id it
  -- fails. It stores what the closure leaves, and changes no other lookup.
  pub with_object_lem :
      {T : Type 0} (m : ObjectMap D) (id j : ℕ) (f : Object D → Object D × T)
      → ((with_object m id f).1 ≡ answer f (find m id))
        × (find (with_object m id f).0 j ≡ (if id == j then updated f (find m id) else find m j))
  unfolding with_object find
  with_object_lem m id j f = (
    ground (
      arith,
      with_slot-answer m.server_objects (id - server_id_limit) f,
      with_slot-answer m.client_objects (id - 1) f,
    ),
    ground (
      arith,
      slot-with_slot m.server_objects (id - server_id_limit) (j - server_id_limit) f,
      slot-with_slot m.client_objects (id - 1) (j - 1) f,
    ),
  )
