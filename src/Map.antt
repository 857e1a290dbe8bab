-- ===== src/Map.antt =====
-- wayland-backend/src/rs/map.rs: the object store of a connection. A vector is a list; an id is a u32.
pub mod Store
pub mod Lookup
pub mod Fresh
pub mod Bounds
pub mod Iterate
use wayland_rs.Common.{
  ℕ, zero, suc, ◌+◌, ◌-◌, ◌%◌, ◌^◌, ◌≤◌, Bool, true, false, Option, none, some, List, [], ◌∷◌, ◌++◌,
  ltb, leb, ◌==◌, if◌then◌else◌, length, get_elem?, set, Result, ok, err,
}
use wayland_rs.Protocol.Interfaces.{InterfaceRef}

abbrev pub server_id_limit : ℕ
server_id_limit = 0xFF00_0000

pub record Object (D : Type 0) : Type 0 where
  pub interface : InterfaceRef
  pub version : ℕ
  pub user : D

pub record ObjectMap (D : Type 0) : Type 0 where
  pub client_objects : List (Option (Object D))
  pub server_objects : List (Option (Object D))

module _ {A : Type 0} where
  -- `store.get(i).and_then(Clone::clone)`
  unfoldable pub slot : List (Option A) → ℕ → Option A
  slot store i = elim (get_elem? store i) [ some place ↦ place | none ↦ none ]

  -- `store.iter().position(Option::is_none)`
  unfoldable pub position_free : List (Option A) → Option ℕ
  position_free [] = none
  position_free (none ∷ store) = some 0
  position_free (some a ∷ store) = elim (position_free store) [
    | some i ↦ some (suc i)
    | none ↦ none
  ]

  -- A new entry at the first free place, which is returned as a u32.
  unfoldable pub insert_in : List (Option A) → A → List (Option A) × ℕ
  unfolding position_free
  insert_in store a = elim (position_free store) [
    | some i ↦ (set store i (some a), i % 2 ^ 32)
    | none ↦ (store ++ some a ∷ [], length store % 2 ^ 32)
  ]

  -- An entry at a given place, which must be free, or be the next one.
  fill_vacant : List (Option A) → ℕ → A → Option (Option A) → Result (List (Option A)) (Unit {0})
  fill_vacant store i a (some none) = ok (set store i (some a))
  fill_vacant store i a _ = err tt

  unfoldable pub insert_in_at : List (Option A) → ℕ → A → Result (List (Option A)) (Unit {0})
  unfolding fill_vacant
  insert_in_at store i a =
      if ltb (length store) i
      then err tt
      else if i == length store
      then ok (store ++ some a ∷ [])
      else fill_vacant store i a (get_elem? store i)

  -- `if let Some(&mut Some(ref mut obj)) = store.get_mut(i)`: the closure gets the entry, and
  -- returns what it makes of it.
  with_slot :
      {T : Type 0} → List (Option A) → ℕ → (A → A × T) → List (Option A) × Result T (Unit {0})
  unfolding slot
  with_slot store i f = elim (slot store i) [
    | some a ↦ (set store i (some (f a).0), ok (f a).1)
    | none ↦ (store, err tt)
  ]

  -- The entries with their ids, which begin at `id`.
  entries : ℕ → List (Option A) → List (ℕ × A)
  entries id [] = []
  entries id (none ∷ store) = entries (id + 1) store
  entries id (some a ∷ store) = (id % 2 ^ 32, a) ∷ entries (id + 1) store

module _ {D : Type 0} where
  unfoldable pub new_map : ObjectMap D
  new_map = record { client_objects = []; server_objects = [] }

  unfoldable pub find : ObjectMap D → ℕ → Option (Object D)
  unfolding slot
  find m id =
      if id == 0
      then none
      else if leb server_id_limit id
      then slot m.server_objects (id - server_id_limit)
      else slot m.client_objects (id - 1)

  unfoldable pub remove : ObjectMap D → ℕ → ObjectMap D
  remove m id =
      if id == 0
      then m
      else if leb server_id_limit id
      then record m { server_objects = set m.server_objects (id - server_id_limit) none }
      else record m { client_objects = set m.client_objects (id - 1) none }

  in_server :
      ObjectMap D → Result (List (Option (Object D))) (Unit {0}) → Result (ObjectMap D) (Unit {0})
  in_server m (ok store) = ok (record m { server_objects = store })
  in_server m (err x) = err x

  in_client :
      ObjectMap D → Result (List (Option (Object D))) (Unit {0}) → Result (ObjectMap D) (Unit {0})
  in_client m (ok store) = ok (record m { client_objects = store })
  in_client m (err x) = err x

  unfoldable pub insert_at : ObjectMap D → ℕ → Object D → Result (ObjectMap D) (Unit {0})
  unfolding insert_in_at in_server in_client
  insert_at m id object =
      if id == 0
      then err tt
      else if leb server_id_limit id
      then in_server m (insert_in_at m.server_objects (id - server_id_limit) object)
      else in_client m (insert_in_at m.client_objects (id - 1) object)

  -- u32 additions, with the wrap of a release build.
  unfoldable pub client_insert_new : ObjectMap D → Object D → ObjectMap D × ℕ
  unfolding insert_in
  client_insert_new m object =
      let (store, id) = insert_in m.client_objects object in
      (record m { client_objects = store }, (id + 1) % 2 ^ 32)

  unfoldable pub server_insert_new : ObjectMap D → Object D → ObjectMap D × ℕ
  unfolding insert_in
  server_insert_new m object =
      let (store, id) = insert_in m.server_objects object in
      (record m { server_objects = store }, (id + server_id_limit) % 2 ^ 32)

  unfoldable pub with_object :
      {T : Type 0} → ObjectMap D → ℕ → (Object D → Object D × T) → ObjectMap D × Result T (Unit {0})
  unfolding with_slot
  with_object m id f =
      if id == 0
      then (m, err tt)
      else if leb server_id_limit id
      then (let (store, r) = with_slot m.server_objects (id - server_id_limit) f in
          (record m { server_objects = store }, r))
      else (let (store, r) = with_slot m.client_objects (id - 1) f in
          (record m { client_objects = store }, r))

  unfoldable pub all_objects : ObjectMap D → List (ℕ × Object D)
  unfolding entries
  all_objects m = entries 1 m.client_objects ++ entries server_id_limit m.server_objects
