-- ===== src/Examples/Map.antt =====
-- A map with two client objects and a hole between them.
use wayland_rs.Common.{ℕ, ◌+◌, ◌≤◌, ◌<◌, ◌≡◌, ◌↔◌, refl, none, some, [], ◌∷◌, length, ok}
use wayland_rs.Protocol.Interfaces.{wl_display, wl_callback}
use wayland_rs.Map.{Object, ObjectMap, find, insert_at}
use wayland_rs.Map.Lookup.{insert_at_iff, place_of, vector_of}

abbrev display : Object ℕ
display = record { interface = wl_display; version = 1; user = 0 }

abbrev callback : Object ℕ
callback = record { interface = wl_callback; version = 1; user = 7 }

abbrev map : ObjectMap ℕ
map = record {
  client_objects = some display ∷ none ∷ some callback ∷ [];
  server_objects = some callback ∷ [];
}

abbrev filled : ObjectMap ℕ
filled = record map { client_objects = some display ∷ some callback ∷ some callback ∷ [] }

insert_run : insert_at map 2 callback ≡ ok filled
unfolding insert_at
insert_run = refl

insert_at_iff_example :
    ((m : ObjectMap ℕ) × (insert_at map 5 callback ≡ ok m))
    ↔ ((0 < 5) × (place_of 5 ≤ length (vector_of map 5)) × (find map 5 ≡ none))
insert_at_iff_example = insert_at_iff map 5 callback

abbrev bump : Object ℕ → Object ℕ × ℕ
bump o = (record o { user = o.user + 1 }, o.user)
