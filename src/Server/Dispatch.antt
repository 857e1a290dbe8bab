-- ===== src/Server/Dispatch.antt =====
-- `dispatch_events_for` of wayland-backend/src/rs/server_impl/common_poll.rs: the loop that handles what a
-- client has sent. The callbacks run while the mutex is free.
pub mod Given
pub mod Polling
use wayland_rs.Common.{
  ℕ, zero, suc, ◌+◌, ◌&&◌, Bool, not, Option, none, some, List, [], ◌∷◌, ◌==◌, if◌then◌else◌,
  Result, ok, err, Outcome, returns, fails, panics,
}
use wayland_rs.Io.{IoError, is_would_block}
use wayland_rs.Protocol.{Message}
use wayland_rs.Protocol.Interfaces.{same_interface, wl_display, wl_registry}
use wayland_rs.Map.{Object, ObjectMap, with_object}
use wayland_rs.Client.State.{ObjectData, dumb, uninit, user, InvalidId}
use wayland_rs.Server.{ClientId, GlobalId, ServerObjectId}
use wayland_rs.Server.Client.{ServerData, Host, Client, PendingDestructor, id_in}
use wayland_rs.Server.Sending.{send_delete_id}
use wayland_rs.Server.Requests.{next_request}
use wayland_rs.Server.Conversion.{Request, process_request}
use wayland_rs.Server.Handlers.{Binding, handle_display_request, handle_registry_request}
use wayland_rs.Server.Registry.{RegistryState}
use wayland_rs.Server.Display.{ServerState, put_client, client_of, state_cleanup}

-- The error of the loop: that of a socket, or the `InvalidInput` for an unknown client.
pub data DispatchError : Type 0 where
  invalid_client : DispatchError
  io_error : IoError → DispatchError

-- The program's callbacks: what each, and other threads meanwhile, make of the state. `may_view` is
-- `GlobalHandler::can_view`, which is called under the mutex.
pub record Callbacks (Sys Fd U V H : Type 0) : Type 0 where
  pub request :
      U
      → ClientId
      → Message ServerObjectId Fd
      → ServerState Sys Fd U V H
      → ServerState Sys Fd U V H × Option U
  pub destroyed :
      U → ClientId → ServerObjectId → ServerState Sys Fd U V H → ServerState Sys Fd U V H
  pub bind : Binding H → ServerState Sys Fd U V H → ServerState Sys Fd U V H × U
  pub may_view : H → ClientId → V → GlobalId → Bool

-- `|obj| obj.data.user_data = child_data`
abbrev pub store_data : {U : Type 0} → U → Object (ServerData U) → Object (ServerData U) × Unit {0}
store_data u object = (record object { user = record object.user { user_data = user u } }, tt)

module _ {Fd : Type 0} (host : Host ℕ Fd) where
  open host use {statics, kernel}
  open kernel use {Sys}

  module _ {U V H : Type 0} where
    -- How a callback's turn ends: in the state for the next one, or in a panic.
    stored :
        ServerState Sys Fd U V H
        → ℕ
        → Client Sys Fd U V
        → ObjectMap (ServerData U) × Result (Unit {0}) (Unit {0})
        → Option (ServerState Sys Fd U V H)
    stored s i c (map, ok x) = some (put_client s i (record c { map = map }))
    stored s i c (map, err x) = none

    -- `client.map.with(id, ...).unwrap()`, if the client is still there.
    unfoldable pub give_data :
        ClientId → ServerObjectId → U → ServerState Sys Fd U V H → Option (ServerState Sys Fd U V H)
    unfolding stored client_of
    give_data id child u s = elim (client_of host s id) [
      | ok c ↦ stored s id.id c (with_object c.map child.id (store_data u))
      | err x ↦ some s
    ]

    -- `match (created_id, ret)`
    unfoldable pub settle_child :
        ClientId
        → Option ServerObjectId
        → Option U
        → ServerState Sys Fd U V H
        → Option (ServerState Sys Fd U V H)
    unfolding give_data
    settle_child id (some child) (some u) s = give_data id child u s
    settle_child id none none s = some s
    settle_child id (some child) none s = elim (client_of host s id) [
      | ok c ↦ if c.killed then some s else none
      | err x ↦ some s
    ]
    settle_child id none (some u) s = none

    -- `client.send_delete_id(object_id)`, if the client is still there.
    unfoldable pub forget_object :
        ClientId → ServerObjectId → ServerState Sys Fd U V H → ServerState Sys Fd U V H
    forget_object id o s = elim (client_of host s id) [
      | ok c ↦ put_client s id.id (send_delete_id host o c)
      | err x ↦ s
    ]

    module _ (calls : Callbacks Sys Fd U V H) where
      open calls use {request, destroyed, bind, may_view}

      -- A request on its object: the callback, `destroyed` for a destructor, and the rest under the
      -- mutex again. `none` is a panic, and so is a request on data that only the backend has.
      unfoldable pub call_request :
          ObjectData U
          → ClientId
          → ServerObjectId
          → ℕ
          → Request Fd
          → Bool
          → ServerState Sys Fd U V H
          → Option (ServerState Sys Fd U V H)
      unfolding forget_object settle_child
      call_request dumb id o opcode r is_destructor s = none
      call_request uninit id o opcode r is_destructor s = none
      call_request (user u) id o opcode r is_destructor s =
          let (s₁, ret) =
            request u id (record { sender_id = o; opcode = opcode; args = r.args }) s in
          let s₂ = if is_destructor then forget_object id o (destroyed u id o s₁) else s₁ in
          settle_child id r.created_id ret s₂

      unfoldable pub call_bind :
          Binding H → ServerState Sys Fd U V H → Option (ServerState Sys Fd U V H)
      unfolding give_data
      call_bind (id, g, o, handler) s =
          let (s', u) = bind (id, g, o, handler) s in give_data id o u s'

      -- What the three kinds of request make of the state.
      displayed :
          ServerState Sys Fd U V H
          → ℕ
          → Outcome
              ((RegistryState H × Client Sys Fd U V) × Unit {0})
              ((RegistryState H × Client Sys Fd U V) × InvalidId)
          → Option (ServerState Sys Fd U V H)
      displayed s i (returns ((r, c), x)) = some (record (put_client s i c) { registry = r })
      displayed s i (fails ((r, c), x)) = some (record (put_client s i c) { registry = r })
      displayed s i panics = none

      bound_by :
          ServerState Sys Fd U V H
          → ℕ
          → Outcome (Client Sys Fd U V × Option (Binding H)) (Client Sys Fd U V × InvalidId)
          → Option (ServerState Sys Fd U V H)
      unfolding call_bind
      bound_by s i (returns (c, some b)) = call_bind b (put_client s i c)
      bound_by s i (returns (c, none)) = some (put_client s i c)
      bound_by s i (fails (c, x)) = some (put_client s i c)
      bound_by s i panics = none

      requested :
          ServerState Sys Fd U V H
          → ClientId
          → Object (ServerData U)
          → Message ℕ Fd
          → Outcome (Client Sys Fd U V × Option (Request Fd × Bool)) (Client Sys Fd U V × InvalidId)
          → Option (ServerState Sys Fd U V H)
      unfolding call_request
      requested s id object m (returns (c, some (r, is_destructor))) =
          call_request object.user.user_data id (id_in c.id m.sender_id object) m.opcode r
            is_destructor (put_client s id.id c)
      requested s id object m (returns (c, none)) = some (put_client s id.id c)
      requested s id object m (fails (c, x)) = some (put_client s id.id c)
      requested s id object m panics = none

      unfoldable pub on_request :
          ServerState Sys Fd U V H
          → ClientId
          → Client Sys Fd U V
          → Message ℕ Fd
          → Object (ServerData U)
          → Option (ServerState Sys Fd U V H)
      unfolding displayed bound_by requested
      on_request s id c m object =
          if same_interface statics object.interface wl_display
          then displayed s id.id (handle_display_request host may_view m (s.registry, c))
          else if same_interface statics object.interface wl_registry
          then bound_by s id.id (handle_registry_request host may_view s.registry m c)
          else requested s id object m (process_request host object m c)

      -- A turn: its end, or the state for the next one.
      after_next :
          ServerState Sys Fd U V H
          → ClientId
          → ℕ
          → Outcome
              (Client Sys Fd U V × (Message ℕ Fd × Object (ServerData U)))
              (Client Sys Fd U V × IoError)
          → Result
              (ServerState Sys Fd U V H)
              (Outcome (ServerState Sys Fd U V H × ℕ) (ServerState Sys Fd U V H × DispatchError))
      unfolding on_request
      after_next s id dispatched (returns (c, (m, object))) = elim (on_request s id c m object) [
        | some s' ↦ ok s'
        | none ↦ err panics
      ]
      after_next s id dispatched (fails (c, x)) =
          if is_would_block x && not (dispatched == 0)
          then err (returns (put_client s id.id c, dispatched))
          else err (fails (put_client s id.id c, io_error x))
      after_next s id dispatched panics = err panics

      -- `none` means that the fuel ran out; each turn gives all of its fuel to `next_request`.
      unfoldable pub dispatch_turn :
          ℕ
          → ClientId
          → ℕ
          → ServerState Sys Fd U V H
          → Option (
              Result
                (ServerState Sys Fd U V H)
                (Outcome (ServerState Sys Fd U V H × ℕ) (ServerState Sys Fd U V H × DispatchError)))
      unfolding after_next
      dispatch_turn fuel id dispatched s = elim (client_of host s id) [
        | err x ↦ some (err (fails (s, invalid_client)))
        | ok c ↦ elim (next_request host fuel c) [
          | none ↦ none
          | some r ↦ some (after_next s id dispatched r)
        ]
      ]

      unfoldable pub dispatch_requests :
          ℕ
          → ClientId
          → ℕ
          → ServerState Sys Fd U V H
          → Option
              (Outcome (ServerState Sys Fd U V H × ℕ) (ServerState Sys Fd U V H × DispatchError))
      dispatch_requests zero id dispatched s = none
      dispatch_requests (suc fuel) id dispatched s = elim (dispatch_turn fuel id dispatched s) [
        | none ↦ none
        | some (err r) ↦ some r
        | some (ok s') ↦ dispatch_requests fuel id (dispatched + 1) s'
      ]

      unfoldable pub dispatch_events_for :
          ℕ
          → ClientId
          → ServerState Sys Fd U V H
          → Option
              (Outcome (ServerState Sys Fd U V H × ℕ) (ServerState Sys Fd U V H × DispatchError))
      unfolding dispatch_requests
      dispatch_events_for fuel id s = dispatch_requests fuel id 0 s

      -- The closure of `cleanup`: `destroyed` does nothing on the data of the backend.
      unfoldable pub run_destructors :
          List (PendingDestructor U) → ServerState Sys Fd U V H → ServerState Sys Fd U V H
      run_destructors [] s = s
      run_destructors ((user u, id, o) ∷ pending) s = run_destructors pending (destroyed u id o s)
      run_destructors ((d, id, o) ∷ pending) s = run_destructors pending s

      unfoldable pub clean_up : ServerState Sys Fd U V H → ServerState Sys Fd U V H
      unfolding run_destructors
      clean_up s = let (s', pending) = state_cleanup host s in run_destructors pending s'

      cleaned :
          Outcome (ServerState Sys Fd U V H × ℕ) (ServerState Sys Fd U V H × DispatchError)
          → Outcome (ServerState Sys Fd U V H × ℕ) (ServerState Sys Fd U V H × DispatchError)
      unfolding clean_up
      cleaned (returns (s, n)) = returns (clean_up s, n)
      cleaned (fails (s, x)) = fails (clean_up s, x)
      cleaned panics = panics

      unfoldable pub dispatch_client :
          ℕ
          → ClientId
          → ServerState Sys Fd U V H
          → Option
              (Outcome (ServerState Sys Fd U V H × ℕ) (ServerState Sys Fd U V H × DispatchError))
      unfolding cleaned
      dispatch_client fuel id s = elim (dispatch_events_for fuel id s) [
        | none ↦ none
        | some r ↦ some (cleaned r)
      ]
