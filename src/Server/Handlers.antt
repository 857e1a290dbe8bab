-- ===== src/Server/Handlers.antt =====
-- `Client::handle_display_request` and `Client::handle_registry_request` of
-- wayland-backend/src/rs/server_impl/client.rs.
pub mod Sync
pub mod Binding
use wayland_rs.Common.{
  ℕ, Bool, Option, none, some, List, [], ◌∷◌, ◌==◌, if◌then◌else◌, Result, ok, err, Outcome,
  returns, fails, panics, M,
}
use wayland_rs.Protocol.{Argument, Message}
use wayland_rs.Protocol.Interfaces.{InterfaceRef, wl_display, wl_registry, wl_callback}
use wayland_rs.Map.{ObjectMap, Object, insert_at}
use wayland_rs.Client.State.{dumb, uninit, InvalidId}
use wayland_rs.Server.{ClientId, GlobalId, ServerObjectId}
use wayland_rs.Server.Client.{
  ServerData, bad_new_id, invalid_binding, unknown_opcode, invalid_object_error, invalid_method,
  Host, Client, next_client_serial,
}
use wayland_rs.Server.Sending.{client_peer, send_event, post_display_error}
use wayland_rs.Server.Registry.{RegistryState, check_bind, new_registry}

-- A result that is an error makes `unwrap` panic.
unwrapped : {S A : Type 0} → Outcome (S × A) (S × InvalidId) → Outcome (S × A) (S × InvalidId)
unwrapped (returns x) = returns x
unwrapped (fails x) = panics
unwrapped panics = panics

-- `let _ = ...`
discarded :
    {S : Type 0} → Outcome (S × Unit {0}) (S × InvalidId) → Outcome (S × Unit {0}) (S × InvalidId)
discarded (returns x) = returns x
discarded (fails (s, x)) = returns (s, tt)
discarded panics = panics

dumb_object : {U : Type 0} → InterfaceRef → ℕ → Object (ServerData U)
dumb_object interface serial = record {
  interface = interface;
  version = 1;
  user = record { user_data = dumb; serial = serial };
}

-- What the callback of a bind is given: the client, the global, the new object and the handler.
abbrev pub Binding : Type 0 → Type 0
Binding H = ClientId × GlobalId × ServerObjectId × H

module _ {Fd : Type 0} (host : Host ℕ Fd) where
  open host use {statics, endian, kernel}
  open kernel use {Sys}

  module _ {U V H : Type 0} where
    -- The registry beside the outcome of a client's operation.
    beside :
        {A : Type 0}
        → RegistryState H
        → Outcome (Client Sys Fd U V × A) (Client Sys Fd U V × InvalidId)
        → Outcome
            ((RegistryState H × Client Sys Fd U V) × Unit {0})
            ((RegistryState H × Client Sys Fd U V) × InvalidId)
    beside r (returns (c, x)) = returns ((r, c), tt)
    beside r (fails (c, x)) = fails ((r, c), x)
    beside r panics = panics

    -- The callback of a sync is told that it is done.
    synced :
        RegistryState H
        → Client Sys Fd U V
        → ServerObjectId
        → Result (ObjectMap (ServerData U)) (Unit {0})
        → Outcome
            ((RegistryState H × Client Sys Fd U V) × Unit {0})
            ((RegistryState H × Client Sys Fd U V) × InvalidId)
    unfolding beside unwrapped
    synced r c id (err x) =
        beside r (post_display_error host invalid_object_error (bad_new_id id.id) c)
    synced r c id (ok map) = beside r (
        unwrapped (
          send_event host (record { sender_id = id; opcode = 0; args = Argument.uint 0 ∷ [] })
            (record c { map = map })))

    unfoldable pub sync : ℕ → M (RegistryState H × Client Sys Fd U V) InvalidId (Unit {0})
    unfolding synced dumb_object next_client_serial
    sync new_id (r, c) =
        let (c', serial) = next_client_serial c in
        synced r c'
          (record { id = new_id; client_id = c'.id; serial = serial; interface = wl_callback })
          (insert_at c'.map new_id (dumb_object wl_callback serial))

    module _ (can_view : H → ClientId → V → GlobalId → Bool) where
      viewed : H → Client Sys Fd U V → GlobalId → Bool
      viewed h c g = can_view h c.id c.client_data g

      registered :
          RegistryState H
          → Client Sys Fd U V
          → ServerObjectId
          → Result (ObjectMap (ServerData U)) (Unit {0})
          → Outcome
              ((RegistryState H × Client Sys Fd U V) × Unit {0})
              ((RegistryState H × Client Sys Fd U V) × InvalidId)
      unfolding beside discarded viewed
      registered r c id (err x) =
          beside r (post_display_error host invalid_object_error (bad_new_id id.id) c)
      registered r c id (ok map) =
          discarded
            (new_registry statics (client_peer host U V) viewed id (r, record c { map = map }))

      unfoldable pub get_registry : ℕ → M (RegistryState H × Client Sys Fd U V) InvalidId (Unit {0})
      unfolding registered dumb_object next_client_serial
      get_registry new_id (r, c) =
          let (c', serial) = next_client_serial c in
          registered r c'
            (record { id = new_id; serial = serial; client_id = c'.id; interface = wl_registry })
            (insert_at c'.map new_id (dumb_object wl_registry serial))

      -- Other arguments are `unreachable!()`.
      unfoldable pub handle_display_request :
          Message ℕ Fd → M (RegistryState H × Client Sys Fd U V) InvalidId (Unit {0})
      unfolding sync get_registry beside
      handle_display_request m (r, c) =
          if m.opcode == 0
          then elim m.args [ Argument.new_id n ∷ [] ↦ sync n (r, c) | _ ↦ panics ]
          else if m.opcode == 1
          then elim m.args [ Argument.new_id n ∷ [] ↦ get_registry n (r, c) | _ ↦ panics ]
          else beside r
              (post_display_error host invalid_method (unknown_opcode m.opcode wl_display) c)

      -- `post_display_error(...)`, and no callback.
      not_bound :
          Outcome (Client Sys Fd U V × Unit {0}) (Client Sys Fd U V × InvalidId)
          → Outcome (Client Sys Fd U V × Option (Binding H)) (Client Sys Fd U V × InvalidId)
      not_bound (returns (c, x)) = returns (c, none)
      not_bound (fails x) = fails x
      not_bound panics = panics

      bound :
          Client Sys Fd U V
          → ServerObjectId
          → GlobalId
          → H
          → Result (ObjectMap (ServerData U)) (Unit {0})
          → Outcome (Client Sys Fd U V × Option (Binding H)) (Client Sys Fd U V × InvalidId)
      unfolding not_bound
      bound c id g handler (ok map) = returns (record c { map = map }, some (c.id, g, id, handler))
      bound c id g handler (err x) =
          not_bound (post_display_error host invalid_object_error (bad_new_id id.id) c)

      bind_checked :
          Client Sys Fd U V
          → ℕ
          → List ℕ
          → ℕ
          → ℕ
          → Option (InterfaceRef × (GlobalId × H))
          → Outcome (Client Sys Fd U V × Option (Binding H)) (Client Sys Fd U V × InvalidId)
      unfolding bound not_bound next_client_serial
      bind_checked c name interface_name version new_id none = not_bound (
          post_display_error host invalid_object_error (invalid_binding interface_name version name)
            c)
      bind_checked c name interface_name version new_id (some (interface, (g, handler))) =
          let (c', serial) = next_client_serial c in
          bound c'
            (record { id = new_id; client_id = c'.id; interface = interface; serial = serial }) g
            handler
            (insert_at c'.map new_id (record {
              interface = interface;
              version = version;
              user = record { serial = serial; user_data = uninit };
            }))

      -- Other arguments are `unreachable!()`.
      unfoldable pub bind_request :
          RegistryState H
          → List (Argument ℕ Fd)
          → M (Client Sys Fd U V) InvalidId (Option (Binding H))
      unfolding bind_checked viewed
      bind_request r
            (Argument.uint name
              ∷ Argument.str (some interface_name)
              ∷ Argument.uint version
              ∷ Argument.new_id new_id
              ∷ [])
            c =
          bind_checked c name interface_name version new_id
            (check_bind statics (client_peer host U V) viewed r c name interface_name version)
      bind_request r _ c = panics

      unfoldable pub handle_registry_request :
          RegistryState H → Message ℕ Fd → M (Client Sys Fd U V) InvalidId (Option (Binding H))
      unfolding bind_request not_bound
      handle_registry_request r m c =
          if m.opcode == 0
          then bind_request r m.args c
          else not_bound
              (post_display_error host invalid_method (unknown_opcode m.opcode wl_registry) c)
