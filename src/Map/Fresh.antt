-- ===== src/Map/Fresh.antt =====
-- New ids: fresh, in the namespace asked for, and the lowest ones.
use wayland_rs.Common.{ℕ, ◌+◌, ◌-◌, ◌%◌, ◌^◌, ◌≤◌, ◌<◌, ◌≡◌, some, arith, length}
use wayland_rs.Map.{
  Object, ObjectMap, server_id_limit, insert_in, find, client_insert_new, server_insert_new,
}
use wayland_rs.Map.Store.{insert_in-Filled, insert_in-least}
use wayland_rs.Map.Lookup.{Inserted, client_Inserted, server_Inserted}

module _ {D : Type 0} where
  -- Where the client vector has room for one more id, a new client id was not in use and lies below
  -- the server's ids. The object is found under it and every other lookup is as before.
  pub client_insert_new_lem :
      (m : ObjectMap D) (o : Object D)
      → length m.client_objects < server_id_limit - 1
      → Inserted m (client_insert_new m o).0 (client_insert_new m o).1 o
        × ((client_insert_new m o).1 < server_id_limit)
  unfolding client_insert_new
  client_insert_new_lem m o room =
      let f = insert_in-Filled m.client_objects o (omega arith) in
      let id : ℕ = (insert_in m.client_objects o).1 in
      let p : (id + 1) % 2 ^ 32 ≡ id + 1 = omega (arith, f.within) in
      rw p (
        client_Inserted m (insert_in m.client_objects o).0 (id + 1) o (omega arith)
            (omega (arith, f.within)) (rw (back id) f),
        omega (arith, f.within),
      )
    where
      back : (n : ℕ) → n + 1 - 1 ≡ n
      back n = omega arith

  -- A new client id is the lowest one that is free: every id between 0 and it was in use. The client
  -- vector has room for one more id.
  pub client_insert_new_least :
      (m : ObjectMap D) (o : Object D) (j : ℕ)
      → length m.client_objects < server_id_limit - 1
      → 0 < j
      → j < (client_insert_new m o).1
      → (x : Object D) × (find m j ≡ some x)
  unfolding client_insert_new
  client_insert_new_least m o j room h k =
      let f = insert_in-Filled m.client_objects o (omega arith) in
      let (x, e) =
        insert_in-least m.client_objects o (j - 1) (omega arith) (omega (arith, f.within)) in
      (x, unfold find in ground (arith, f.within))

  -- Where the server vector has room for one more id, a new server id was not in use and lies in the
  -- server's range. The object is found under it and every other lookup is as before.
  pub server_insert_new_lem :
      (m : ObjectMap D) (o : Object D)
      → length m.server_objects < 2 ^ 32 - server_id_limit
      → Inserted m (server_insert_new m o).0 (server_insert_new m o).1 o
        × (server_id_limit ≤ (server_insert_new m o).1)
        × ((server_insert_new m o).1 < 2 ^ 32)
  unfolding server_insert_new
  server_insert_new_lem m o room =
      let f = insert_in-Filled m.server_objects o (omega arith) in
      let id : ℕ = (insert_in m.server_objects o).1 in
      let p : (id + server_id_limit) % 2 ^ 32 ≡ id + server_id_limit = omega (arith, f.within) in
      rw p (
        server_Inserted m (insert_in m.server_objects o).0 (id + server_id_limit) o (omega arith)
            (rw (back id) f),
        omega arith,
        omega (arith, f.within),
      )
    where
      back : (n : ℕ) → n + server_id_limit - server_id_limit ≡ n
      back n = omega arith
