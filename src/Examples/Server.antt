-- ===== src/Examples/Server.antt =====
-- A server with two clients, one of them killed, and one global.
use wayland_rs.Common.{
  ℕ, ◌+◌, ◌≡◌, ◌↔◌, refl, arith, Bool, true, false, some, [], ◌∷◌, ◌==◌, if◌then◌else◌, Outcome,
  returns, fails, panics, ok, err,
}
use wayland_rs.Protocol.Interfaces.{
  Interface, InterfaceRef, anonymous_interface, wl_callback, wl_callback_interface, bytes_of, deref,
}
use wayland_rs.Client.State.{InvalidId, invalid_id}
use wayland_rs.Map.{position_free}
use wayland_rs.Server.{
  ClientId, GlobalId, client_id_eq, global_id_eq, Peer, ClientStore, create_client, get_client,
  cleanup_clients,
}
use wayland_rs.Server.Clients.{get_client-create_client, living_only, get_client-cleanup_clients}
use wayland_rs.Server.Registry.{
  Global, RegistryState, place, get_global, create_global, disable_global, remove_global,
  check_bind,
}
use wayland_rs.Server.Registry.Lookup.{fresh}
use wayland_rs.Server.Registry.Change.{get_global-create_global, get_global-remove_global}
use wayland_rs.Server.Registry.Binding.{Binds, target, check_bind_iff}

-- A client as its id, whether it is killed, and the number of events it has been sent.
record TestClient : Type 0 where
  client_id : ClientId
  dead : Bool
  events : ℕ

abbrev peer : Peer ℕ
peer = record {
  Client = TestClient;
  id = λ c. c.client_id;
  killed = λ c. c.dead;
  send_event = λ m c. returns (record c { events = c.events + 1 }, tt);
  queue_all_destructors = λ c. (c, 3 ∷ []);
  flush = λ c. c;
}

abbrev new_client : ClientId → TestClient
new_client c = record { client_id = c; dead = false; events = 0 }

abbrev first : ClientId
first = record { id = 0; serial = 1 }

abbrev second : ClientId
second = record { id = 1; serial = 2 }

abbrev store : ClientStore TestClient
store = record {
  clients = some (new_client first) ∷ some (record (new_client second) { dead = true }) ∷ [];
  last_serial = 2;
}

get_client-create_client_example : get_client peer (create_client store new_client).0 second ≡ (
    if client_id_eq (create_client store new_client).1 second
    then ok (new_client (create_client store new_client).1)
    else get_client peer store second)
get_client-create_client_example =
    get_client-create_client peer store new_client second (omega arith) (λ a. refl)

get_client-cleanup_clients_example :
    get_client peer (cleanup_clients peer store []).0 second
    ≡ living_only peer (get_client peer store second)
get_client-cleanup_clients_example = get_client-cleanup_clients peer store [] second

abbrev statics : ℕ → Interface
statics n = anonymous_interface

-- The handler is the number of a client that may not see the global.
abbrev can_view : ℕ → TestClient → GlobalId → Bool
can_view h c g = if h == c.client_id.id then false else true

abbrev registry : RegistryState ℕ
registry = record {
  globals = [];
  known_registries =
      record { id = 2; serial = 1; client_id = first; interface = InterfaceRef.wl_registry } ∷ [];
  last_serial = 0;
}

abbrev global_id : GlobalId
global_id = record { id = 1; serial = 1 }

-- The state that an outcome carries.
abbrev state_after :
    {A : Type 0}
    → Outcome
        ((RegistryState ℕ × ClientStore TestClient) × A)
        ((RegistryState ℕ × ClientStore TestClient) × InvalidId)
    → RegistryState ℕ × ClientStore TestClient
state_after (returns (s, a)) = s
state_after (fails (s, x)) = s
state_after panics = (registry, store)

abbrev created : RegistryState ℕ × ClientStore TestClient
created = state_after (create_global statics peer can_view wl_callback 1 9 (registry, store))

create_run :
    create_global statics peer can_view wl_callback 1 9 (registry, store)
    ≡ returns ((created.0, created.1), global_id)
unfolding create_global deref wl_callback_interface position_free
create_run = refl

get_global-create_global_example : get_global created.0 global_id ≡ (
    if global_id_eq global_id global_id
    then ok (fresh wl_callback 1 9 global_id)
    else get_global registry global_id)
get_global-create_global_example =
    get_global-create_global statics peer can_view registry store wl_callback 1 9 global_id
      (omega arith) create_run

abbrev with_global : RegistryState ℕ
with_global = record registry {
  globals = some (fresh wl_callback 1 9 global_id) ∷ [];
  last_serial = 1;
}

abbrev disabled : RegistryState ℕ × ClientStore TestClient
disabled = state_after (disable_global statics peer can_view global_id (with_global, store))

disable_run :
    disable_global statics peer can_view global_id (with_global, store)
    ≡ returns ((disabled.0, disabled.1), tt)
unfolding disable_global
disable_run = refl

abbrev removed : RegistryState ℕ × ClientStore TestClient
removed = state_after (remove_global statics peer can_view global_id (with_global, store))

remove_run :
    remove_global statics peer can_view global_id (with_global, store)
    ≡ returns ((removed.0, removed.1), tt)
unfolding remove_global
remove_run = refl

get_global-remove_global_example : get_global removed.0 global_id ≡ (
    if global_id_eq global_id global_id then err invalid_id else get_global with_global global_id)
get_global-remove_global_example =
    get_global-remove_global statics peer can_view with_global store global_id global_id remove_run

abbrev bound : InterfaceRef × (GlobalId × ℕ)
bound = (wl_callback, (global_id, 9))

check_bind_iff_example :
    (check_bind statics peer can_view with_global (new_client first) 1 (bytes_of "wl_callback") 1
      ≡ some bound)
    ↔ ((g : Global ℕ) × ((place with_global 1 ≡ some g)
          × (Binds statics peer can_view (new_client first) (bytes_of "wl_callback") 1 g
              × (bound ≡ target statics peer can_view g))))
check_bind_iff_example =
    check_bind_iff statics peer can_view with_global (new_client first) 1 (bytes_of "wl_callback") 1
      bound
