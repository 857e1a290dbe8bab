-- ===== src/Server/Display.antt =====
-- `State` of wayland-backend/src/rs/server_impl/handle.rs: what the mutex of the server's backend guards, and
-- the operations of `Handle` on it. The epoll instance is outside; `insert_client` is given the result of
-- adding the new socket to it.
pub mod Globals
use wayland_rs.Common.{
  ℕ, Option, none, some, List, [], ◌∷◌, ◌++◌, if◌then◌else◌, set, Result, ok, err, Outcome, returns,
  fails, panics, M,
}
use wayland_rs.Io.{IoResult}
use wayland_rs.Protocol.{Message}
use wayland_rs.Protocol.Interfaces.{InterfaceRef, same_interface}
use wayland_rs.Client.State.{ObjectData, InvalidId, invalid_id, ObjectInfo}
use wayland_rs.Server.{
  ClientId, ServerObjectId, ClientStore, new_store, create_client, get_client, on_client,
  cleanup_clients, all_clients_id,
}
use wayland_rs.Server.Client.{
  DisconnectReason, connection_closed, Host, Client, PendingDestructor, kill, object_info,
  get_object_data, set_object_data, create_object, object_for_protocol_id, all_object_ids,
}
use wayland_rs.Server.Sending.{client_peer, client_flush, send_event, post_error}
use wayland_rs.Server.Registry.{RegistryState, new_registry_state, cleanup}

pub record ServerState (Sys Fd U V H : Type 0) : Type 0 where
  pub clients : ClientStore (Client Sys Fd U V)
  pub registry : RegistryState H
  pub pending_destructors : List (PendingDestructor U)

module _ {Sys Fd U V H : Type 0} where
  unfoldable pub new_server : ServerState Sys Fd U V H
  new_server = record {
    clients = new_store;
    registry = new_registry_state;
    pending_destructors = [];
  }

  -- A client that has been changed by `get_client_mut` at its place.
  abbrev pub put_client :
      ServerState Sys Fd U V H → ℕ → Client Sys Fd U V → ServerState Sys Fd U V H
  put_client s i c = record s {
    clients = record s.clients { clients = set s.clients.clients i (some c) };
  }

module _ {Fd : Type 0} (host : Host ℕ Fd) where
  open host use {statics, kernel}
  open kernel use {Sys}

  same_kind : InterfaceRef → Result ServerObjectId InvalidId → Result ServerObjectId InvalidId
  same_kind interface (ok o) =
      if same_interface statics interface o.interface then ok o else err invalid_id
  same_kind interface (err x) = err x

  module _ {U V : Type 0} where
    -- `for client in self.clients.clients_mut() { let _ = client.flush(); }`
    unfoldable pub flush_all : List (Option (Client Sys Fd U V)) → List (Option (Client Sys Fd U V))
    flush_all [] = []
    flush_all (none ∷ clients) = none ∷ flush_all clients
    flush_all (some c ∷ clients) =
        some (if c.killed then c else (client_flush host c).0) ∷ flush_all clients

  module _ {U V H : Type 0} where
    unfoldable pub client_of :
        ServerState Sys Fd U V H → ClientId → Result (Client Sys Fd U V) InvalidId
    client_of s c = get_client (client_peer host U V) s.clients c

    -- The state without the killed clients, and the destructors that the closure calls.
    unfoldable pub state_cleanup :
        ServerState Sys Fd U V H → ServerState Sys Fd U V H × List (PendingDestructor U)
    state_cleanup s =
        let (clients, (pending, dead)) =
          cleanup_clients (client_peer host U V) s.clients s.pending_destructors in
        (
          record {
            clients = clients;
            registry = cleanup s.registry dead;
            pending_destructors = [];
          },
          pending,
        )

    unfoldable pub state_flush :
        Option ClientId → ServerState Sys Fd U V H → ServerState Sys Fd U V H × IoResult (Unit {0})
    unfolding client_of flush_all
    state_flush none s =
        (record s { clients = record s.clients { clients = flush_all s.clients.clients } }, ok tt)
    state_flush (some id) s = elim (client_of s id) [
      | ok c ↦ let (c', r) = client_flush host c in (put_client s id.id c', r)
      | err x ↦ (s, ok tt)
    ]

    unfoldable pub kill_client :
        ClientId → DisconnectReason → ServerState Sys Fd U V H → ServerState Sys Fd U V H
    unfolding client_of
    kill_client id reason s = elim (client_of s id) [
      | ok c ↦ put_client s id.id (kill reason c)
      | err x ↦ s
    ]

    -- `make` is `Client::new` on the stream and the data; `added` is what epoll says.
    unfoldable pub insert_client :
        (ClientId → Client Sys Fd U V)
        → IoResult (Unit {0})
        → ServerState Sys Fd U V H
        → ServerState Sys Fd U V H × IoResult ClientId
    unfolding kill_client
    insert_client make added s =
        let (clients, id) = create_client s.clients make in
        let inserted = record s { clients = clients } in
        elim added [
          | ok x ↦ (inserted, ok id)
          | err x ↦ (kill_client id connection_closed inserted, err x)
        ]

    -- The client's event on the state; what it adds to the pending destructors is kept.
    sent_by :
        ServerState Sys Fd U V H
        → ℕ
        → Outcome (Client Sys Fd U V × List (PendingDestructor U)) (Client Sys Fd U V × InvalidId)
        → Outcome (ServerState Sys Fd U V H × Unit {0}) (ServerState Sys Fd U V H × InvalidId)
    sent_by s i (returns (c, pending)) =
        returns
          (record (put_client s i c) { pending_destructors = s.pending_destructors ++ pending }, tt)
    sent_by s i (fails (c, x)) = fails (put_client s i c, x)
    sent_by s i panics = panics

    unfoldable pub state_send_event :
        Message ServerObjectId ℕ → M (ServerState Sys Fd U V H) InvalidId (Unit {0})
    unfolding client_of sent_by
    state_send_event m s = elim (client_of s m.sender_id.client_id) [
      | ok c ↦ sent_by s m.sender_id.client_id.id (send_event host m c)
      | err x ↦ fails (s, x)
    ]

    with_store :
        ServerState Sys Fd U V H
        → Outcome
            (ClientStore (Client Sys Fd U V) × Unit {0})
            (ClientStore (Client Sys Fd U V) × InvalidId)
        → Outcome (ServerState Sys Fd U V H × Unit {0}) (ServerState Sys Fd U V H × InvalidId)
    with_store s (returns (clients, x)) = returns (record s { clients = clients }, tt)
    with_store s (fails (clients, x)) = fails (record s { clients = clients }, x)
    with_store s panics = panics

    unfoldable pub state_post_error :
        ServerObjectId → ℕ → List ℕ → M (ServerState Sys Fd U V H) InvalidId (Unit {0})
    unfolding with_store
    state_post_error o error_code message s = with_store s (
        on_client (client_peer host U V) o.client_id (post_error host o error_code message)
          s.clients)

    unfoldable pub state_object_info :
        ServerState Sys Fd U V H → ServerObjectId → Result ObjectInfo InvalidId
    unfolding client_of
    state_object_info s o = elim (client_of s o.client_id) [
      | ok c ↦ object_info c o
      | err x ↦ err x
    ]

    unfoldable pub state_get_client :
        ServerState Sys Fd U V H → ServerObjectId → Result ClientId InvalidId
    unfolding client_of
    state_get_client s o = elim (client_of s o.client_id) [
      | ok c ↦ ok o.client_id
      | err x ↦ err invalid_id
    ]

    unfoldable pub get_client_data : ServerState Sys Fd U V H → ClientId → Result V InvalidId
    unfolding client_of
    get_client_data s id = elim (client_of s id) [ ok c ↦ ok c.client_data | err x ↦ err x ]

    unfoldable pub with_all_clients : ServerState Sys Fd U V H → List ClientId
    with_all_clients s = all_clients_id (client_peer host U V) s.clients

    unfoldable pub with_all_objects_for :
        ServerState Sys Fd U V H → ClientId → Result (List ServerObjectId) InvalidId
    unfolding client_of
    with_all_objects_for s id = elim (client_of s id) [
      | ok c ↦ ok (all_object_ids c)
      | err x ↦ err x
    ]

    unfoldable pub state_object_for_protocol_id :
        ServerState Sys Fd U V H → ClientId → InterfaceRef → ℕ → Result ServerObjectId InvalidId
    unfolding client_of same_kind
    state_object_for_protocol_id s id interface protocol_id = elim (client_of s id) [
      | ok c ↦ same_kind interface (object_for_protocol_id c protocol_id)
      | err x ↦ err x
    ]

    unfoldable pub state_create_object :
        ClientId
        → InterfaceRef
        → ℕ
        → U
        → ServerState Sys Fd U V H
        → ServerState Sys Fd U V H × Result ServerObjectId InvalidId
    unfolding client_of
    state_create_object id interface version u s = elim (client_of s id) [
      | ok c ↦ let (c', o) = create_object interface version u c in (put_client s id.id c', ok o)
      | err x ↦ (s, err x)
    ]

    unfoldable pub state_get_object_data :
        ServerState Sys Fd U V H → ServerObjectId → Result (ObjectData U) InvalidId
    unfolding client_of
    state_get_object_data s o = elim (client_of s o.client_id) [
      | ok c ↦ get_object_data c o
      | err x ↦ err x
    ]

    unfoldable pub state_set_object_data :
        ServerObjectId
        → U
        → ServerState Sys Fd U V H
        → ServerState Sys Fd U V H × Result (Unit {0}) InvalidId
    unfolding client_of
    state_set_object_data o u s = elim (client_of s o.client_id) [
      | ok c ↦ let (c', r) = set_object_data c o u in (put_client s o.client_id.id c', r)
      | err x ↦ (s, err x)
    ]
