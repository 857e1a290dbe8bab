-- ===== src/Map/Bounds.antt =====
-- The vectors never outgrow the ids that a u32 has for them.
use wayland_rs.Common.{
  ℕ, ◌-◌, ◌^◌, ◌≤◌, ◌<◌, ◌≡◌, Option, none, some, List, [], ◌∷◌, arith, length, length-set,
  length-append, ok,
}
use wayland_rs.Map.{
  Object, ObjectMap, server_id_limit, insert_in_at, fill_vacant, remove, insert_at, new_map,
}

pub record IsBounded {D : Type 0} (m : ObjectMap D) : Type 0 where
  pub client : length m.client_objects ≤ server_id_limit - 1
  pub server : length m.server_objects ≤ 2 ^ 32 - server_id_limit

module _ {D : Type 0} where
  new_map-IsBounded : IsBounded (new_map {D = D})
  unfolding new_map
  new_map-IsBounded = omega arith

  pub remove-IsBounded : (m : ObjectMap D) (id : ℕ) → IsBounded m → IsBounded (remove m id)
  unfolding remove
  remove-IsBounded m id b = ground (
    arith,
    length-set m.server_objects (id - server_id_limit) none,
    length-set m.client_objects (id - 1) none,
  )

  length-insert_in_at :
      (store store' : List (Option (Object D))) (i n : ℕ) (o : Object D)
      → insert_in_at store i o ≡ ok store'
      → i < n
      → length store ≤ n
      → length store' ≤ n
  unfolding insert_in_at fill_vacant
  length-insert_in_at store store' i n o h k l =
      ground (arith, length-append store (some o ∷ []), length-set store i (some o))

  -- An id off the wire is a u32, so an insertion at it keeps the bounds.
  pub insert_at-IsBounded :
      (m m' : ObjectMap D) (id : ℕ) (o : Object D)
      → id < 2 ^ 32
      → insert_at m id o ≡ ok m'
      → IsBounded m
      → IsBounded m'
  unfolding insert_at
  insert_at-IsBounded m m' id o u h b = record {
    client = ground (
      arith,
      length-insert_in_at m.client_objects m'.client_objects (id - 1) (server_id_limit - 1) o,
    );
    server = ground (
      arith,
      length-insert_in_at m.server_objects m'.server_objects (id - server_id_limit)
          (2 ^ 32 - server_id_limit) o,
    );
  }
