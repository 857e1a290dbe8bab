-- ===== src/Server/Client/Objects.antt =====
-- Which ids a client's `create_object` makes valid.
use wayland_rs.Common.{
  ℕ, ◌+◌, ◌-◌, ◌%◌, ◌^◌, ◌<◌, ◌≡◌, refl, ap, ◌∙◌, Bool, true, false, none, some, Option, ◌==◌,
  if◌then◌else◌, length, ok, err,
}
use wayland_rs.Protocol.Interfaces.{InterfaceRef}
use wayland_rs.Map.{Object, find, server_insert_new, server_id_limit}
use wayland_rs.Map.Fresh.{server_insert_new_lem}
use wayland_rs.Client.State.{user, invalid_id}
use wayland_rs.Server.{ServerObjectId}
use wayland_rs.Server.Client.{
  ServerData, Client, with_serial, next_client_serial, client_object, create_object,
}

module _ {Sys Fd U V : Type 0} (interface : InterfaceRef) (version : ℕ) (u : U)
    (c : Client Sys Fd U V) (room : length c.map.server_objects < 2 ^ 32 - server_id_limit) where
  abbrev pub created : Object (ServerData U)
  created = record {
    interface = interface;
    version = version;
    user = record { user_data = user u; serial = (c.last_serial + 1) % 2 ^ 32 };
  }

  with_serial-found :
      (p : ServerObjectId) (b : Bool) (o : Option (Object (ServerData U)))
      → with_serial p (if b then some created else o) ≡ (
          if b
          then (if (c.last_serial + 1) % 2 ^ 32 == p.serial then ok created else err invalid_id)
          else with_serial p o)
  unfolding with_serial
  with_serial-found p true o = refl
  with_serial-found p false o = refl

  -- Where the server's range has room, the new object has a number that no object had. That number
  -- finds the new object, and only with the serial that the object was given; every other number
  -- finds what it found before.
  pub client_object-create_object :
      (p : ServerObjectId)
      → (find c.map (create_object interface version u c).1.id ≡ none)
        × (client_object (create_object interface version u c).0 p ≡ (
            if (create_object interface version u c).1.id == p.id
            then (if (create_object interface version u c).1.serial == p.serial
                then ok created
                else err invalid_id)
            else client_object c p))
  unfolding create_object next_client_serial client_object
  client_object-create_object p =
      let (i, low, high) = server_insert_new_lem c.map created room in
      (
        i.unused,
        ap (with_serial p) (i.found p.id)
            ∙ with_serial-found p ((server_insert_new c.map created).1 == p.id) (find c.map p.id),
      )
