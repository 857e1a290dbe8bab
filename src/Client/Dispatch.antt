-- ===== src/Client/Dispatch.antt =====
-- `dispatch_events`: reading messages, making the objects that they create, and calling the user.
pub mod Kept
pub mod Termination
pub mod Errors
pub mod Events
use wayland_rs.Common.{
  ℕ, zero, suc, ◌+◌, Bool, true, false, not, ◌&&◌, Option, none, some, List, [], ◌∷◌, leb, ◌==◌,
  get_elem?, if◌then◌else◌, Result, ok, err, Outcome, returns, fails, panics, M, ◌>>=◌, ◌>>◌, pure,
  panic, unwrap,
}
use wayland_rs.Common.Word.{Endian}
use wayland_rs.Io.{IoResult, is_would_block}
use wayland_rs.Protocol.{Argument, ArgumentType, Message}
use wayland_rs.Protocol.Interfaces.{
  Interface, InterfaceRef, MessageDesc, deref, same_interface_or_anonymous,
}
use wayland_rs.Map.{ObjectMap, Object, find, with_object, remove, insert_at, server_id_limit}
use wayland_rs.Wire.{MessageParseError, missing_fd, missing_data, malformed}
use wayland_rs.Socket.{BufferedSocket, read_one_message, fill_incoming_buffers}
use wayland_rs.Socket.System.{Kernel}
use wayland_rs.Client.State.{
  ObjectData, dumb, uninit, user, Data, ObjectId, WaylandError, io, protocol, ErrorText,
  malformed_message, unknown_object, wrong_interface, invalid_new_id, ProtocolState, null_id,
  next_serial, store_and_return_error, update_object, notify_destroyed,
}
use wayland_rs.Client.Display.{handle_display_event}

-- A protocol error that this side reports: code 0, object 0 and no interface.
abbrev pub own_error : ErrorText → WaylandError
own_error text =
    protocol (record { code = 0; object_id = 0; object_interface = []; message = text })

-- The arguments of an event as the user gets them, and the id that it creates.
pub record Converted (Fd : Type 0) : Type 0 where
  pub args : List (Argument ObjectId Fd)
  pub created_id : Option ObjectId

abbrev pub with_arg : {Fd : Type 0} → Argument ObjectId Fd → Converted Fd → Converted Fd
with_arg a c = record c { args = a ∷ c.args }

-- `created_id` is what the last argument that creates an object has set it to.
abbrev pub with_created : {Fd : Type 0} → ObjectId → Converted Fd → Converted Fd
with_created id c = record {
  args = Argument.new_id id ∷ c.args;
  created_id = elim c.created_id [ none ↦ some id | some later ↦ some later ];
}

module _ {U : Type 0} where
  -- A server id whose object the client has destroyed is taken over.
  unfoldable pub free_zombie : ObjectMap (Data U) → ℕ → ObjectMap (Data U)
  free_zombie map id =
      let (map', r) = with_object map id (λ o. (o, o.user.client_destroyed)) in
      let client_destroyed : Bool = elim r [ ok b ↦ b | err x ↦ false ] in
      if leb server_id_limit id && client_destroyed then remove map' id else map

module _ (statics : ℕ → Interface) {Sys Fd U : Type 0} where
  -- `if let Some(next_interface) = arg_interfaces.next()`: the check of an object, and what the
  -- iterator still has.
  check_interface :
      List InterfaceRef
      → ℕ
      → Object (Data U)
      → M (ProtocolState Sys Fd U) WaylandError (List InterfaceRef)
  check_interface [] o object = pure []
  check_interface (expected ∷ others) o object =
      if same_interface_or_anonymous statics expected object.interface
      then pure others
      else store_and_return_error (own_error (wrong_interface o expected object.interface))

  known_object : ℕ → M (ProtocolState Sys Fd U) WaylandError (Object (Data U))
  known_object o s = elim (find s.map o) [
    | some object ↦ returns (s, object)
    | none ↦ store_and_return_error (own_error (unknown_object o)) s
  ]

  -- A null object leaves the iterator where it is.
  unfoldable pub convert_object :
      List InterfaceRef → ℕ → M (ProtocolState Sys Fd U) WaylandError (ObjectId × List InterfaceRef)
  unfolding check_interface known_object
  convert_object interfaces o =
      if not (o == 0)
      then (do
        object ← known_object o
        others ← check_interface interfaces o object
        pure (record { serial = object.user.serial; id = o; interface = object.interface }, others))
      else pure (null_id, interfaces)

  inserted :
      ProtocolState Sys Fd U
      → ObjectId
      → Result (ObjectMap (Data U)) (Unit {0})
      → Outcome (ProtocolState Sys Fd U × ObjectId) (ProtocolState Sys Fd U × WaylandError)
  inserted s id (ok map) = returns (record s { map = map }, id)
  inserted s id (err x) = store_and_return_error (own_error (invalid_new_id id.interface id.id)) s

  create_object :
      Object (Data U) → InterfaceRef → ℕ → M (ProtocolState Sys Fd U) WaylandError ObjectId
  unfolding free_zombie inserted next_serial
  create_object receiver child_interface new_id s =
      let map = free_zombie s.map new_id in
      let (s', serial) = next_serial (record s { map = map }) in
      inserted s' (record { serial = serial; id = new_id; interface = child_interface })
        (insert_at s'.map new_id (record {
          interface = child_interface;
          version = receiver.version;
          user = record {
            client_destroyed = receiver.user.client_destroyed;
            server_destroyed = false;
            user_data = uninit;
            serial = serial;
          };
        }))

  unfoldable pub convert_args :
      Object (Data U)
      → MessageDesc
      → List InterfaceRef
      → List (Argument ℕ Fd)
      → M (ProtocolState Sys Fd U) WaylandError (Converted Fd)
  unfolding convert_object create_object
  convert_args receiver desc interfaces [] = pure (record { args = []; created_id = none })
  convert_args receiver desc interfaces (Argument.object o ∷ args) = do
    (id, others) ← convert_object interfaces o
    rest ← convert_args receiver desc others args
    pure (with_arg (Argument.object id) rest)
  convert_args receiver desc interfaces (Argument.new_id n ∷ args) = do
    child_interface ← unwrap desc.child_interface
    id ← create_object receiver child_interface n
    rest ← convert_args receiver desc interfaces args
    pure (with_created id rest)
  convert_args receiver desc interfaces (Argument.int x ∷ args) = do
    rest ← convert_args receiver desc interfaces args
    pure (with_arg (Argument.int x) rest)
  convert_args receiver desc interfaces (Argument.uint x ∷ args) = do
    rest ← convert_args receiver desc interfaces args
    pure (with_arg (Argument.uint x) rest)
  convert_args receiver desc interfaces (Argument.fixed x ∷ args) = do
    rest ← convert_args receiver desc interfaces args
    pure (with_arg (Argument.fixed x) rest)
  convert_args receiver desc interfaces (Argument.str x ∷ args) = do
    rest ← convert_args receiver desc interfaces args
    pure (with_arg (Argument.str x) rest)
  convert_args receiver desc interfaces (Argument.array x ∷ args) = do
    rest ← convert_args receiver desc interfaces args
    pure (with_arg (Argument.array x) rest)
  convert_args receiver desc interfaces (Argument.fd x ∷ args) = do
    rest ← convert_args receiver desc interfaces args
    pure (with_arg (Argument.fd x) rest)

  -- `event` is the user's callback: what it, and other threads while the lock is free, make of the
  -- state, and the data for the object that the event creates.
  module _
      (event : U
        → Message ObjectId Fd
        → ProtocolState Sys Fd U
        → ProtocolState Sys Fd U × Option U) where
    -- `unreachable!()` on a DumbObjectData, and `panic!` on an UninitObjectData.
    call_event :
        ObjectData U → Message ObjectId Fd → M (ProtocolState Sys Fd U) WaylandError (Option U)
    call_event (user u) m s = returns (event u m s)
    call_event dumb m s = panics
    call_event uninit m s = panics

    -- An event that is a destructor destroys its object.
    destroy_receiver :
        MessageDesc
        → Object (Data U)
        → ObjectId
        → M (ProtocolState Sys Fd U) WaylandError (Unit {0})
    destroy_receiver desc receiver id =
        if desc.is_destructor
        then (do
          update_object id.id (λ d. record d { server_destroyed = true; client_destroyed = true })
          notify_destroyed receiver.user.user_data id)
        else pure tt

    -- `match (created_id, ret)`
    give_data : Option ObjectId → Option U → M (ProtocolState Sys Fd U) WaylandError (Unit {0})
    give_data (some child) (some u) = update_object child.id (λ d. record d { user_data = user u })
    give_data none none = pure tt
    give_data _ _ = panic

    unfoldable pub deliver :
        Object (Data U)
        → MessageDesc
        → Message ℕ Fd
        → Converted Fd
        → M (ProtocolState Sys Fd U) WaylandError (Unit {0})
    unfolding call_event destroy_receiver give_data
    deliver receiver desc m c =
        let id : ObjectId = record {
          serial = receiver.user.serial;
          id = m.sender_id;
          interface = receiver.interface;
        } in
        (do
          ret ←
              call_event receiver.user.user_data
                (record { sender_id = id; opcode = m.opcode; args = c.args })
          destroy_receiver desc receiver id
          give_data c.created_id ret)

    -- One message that is not for wl_display. Returns whether the user has been called.
    dispatch_to :
        Object (Data U) → MessageDesc → Message ℕ Fd → M (ProtocolState Sys Fd U) WaylandError Bool
    unfolding convert_args deliver
    dispatch_to receiver desc m = do
      c ← convert_args receiver desc desc.arg_interfaces m.args
      if receiver.user.client_destroyed
          then pure false
          else (do deliver receiver desc m c; pure true)

    -- What the loop does with a message.
    unfoldable pub on_message : Message ℕ Fd → M (ProtocolState Sys Fd U) WaylandError Bool
    unfolding dispatch_to
    on_message m s =
        (do
          receiver ← unwrap (find s.map m.sender_id)
          desc ← unwrap (get_elem? (deref statics receiver.interface).events m.opcode)
          if m.sender_id == 1
              then (do handle_display_event statics m; pure false)
              else dispatch_to receiver desc m)
          s

-- The closure given to `read_one_message`.
unfoldable pub event_signature :
    (ℕ → Interface) → {U : Type 0} → ObjectMap (Data U) → ℕ → ℕ → Option (List ArgumentType)
event_signature statics map id opcode = elim (find map id) [
  | none ↦ none
  | some object ↦ elim (get_elem? (deref statics object.interface).events opcode) [
    | none ↦ none
    | some desc ↦ some desc.signature
  ]
]

-- How a turn of the loop ends: in `continue`, with whether a message was dispatched, or the loop does.
pub data Turn (S : Type 0) : Type 0 where
  again : Bool → S → Turn S
  stop : Outcome (S × ℕ) (S × WaylandError) → Turn S

module _ (statics : ℕ → Interface) (e : Endian) {Fd U : Type 0} (k : Kernel Fd) where
  open k use {Sys}

  handled :
      Outcome (ProtocolState Sys Fd U × Bool) (ProtocolState Sys Fd U × WaylandError)
      → Turn (ProtocolState Sys Fd U)
  handled (returns (s, counted)) = again counted s
  handled (fails x) = stop (fails x)
  handled panics = stop panics

  -- After `fill_incoming_buffers`.
  refilled :
      ℕ
      → ProtocolState Sys Fd U
      → BufferedSocket Sys Fd × IoResult (Unit {0})
      → Turn (ProtocolState Sys Fd U)
  refilled dispatched s (socket, ok _) = again false (record s { socket = socket })
  refilled dispatched s (socket, err x) =
      if not (is_would_block x)
      then stop (store_and_return_error (io x) (record s { socket = socket }))
      else if dispatched == 0
      then stop (fails (record s { socket = socket }, io x))
      else stop (returns (record s { socket = socket }, dispatched))

  module _
      (event : U
        → Message ObjectId Fd
        → ProtocolState Sys Fd U
        → ProtocolState Sys Fd U × Option U) where
    after_read :
        ℕ
        → ProtocolState Sys Fd U
        → BufferedSocket Sys Fd × Result (Message ℕ Fd) MessageParseError
        → Turn (ProtocolState Sys Fd U)
    unfolding handled refilled
    after_read dispatched s (socket, ok m) =
        handled (on_message statics event m (record s { socket = socket }))
    after_read dispatched s (socket, err missing_data) =
        refilled dispatched (record s { socket = socket }) (fill_incoming_buffers k socket)
    after_read dispatched s (socket, err missing_fd) =
        refilled dispatched (record s { socket = socket }) (fill_incoming_buffers k socket)
    after_read dispatched s (socket, err malformed) =
        stop (store_and_return_error (own_error malformed_message) (record s { socket = socket }))

    unfoldable pub turn : ℕ → ProtocolState Sys Fd U → Turn (ProtocolState Sys Fd U)
    unfolding after_read
    turn dispatched s =
        after_read dispatched s (read_one_message e (event_signature statics s.map) s.socket)

    -- `none` means that the fuel ran out.
    unfoldable pub dispatch_loop :
        ℕ
        → ℕ
        → ProtocolState Sys Fd U
        → Option (Outcome (ProtocolState Sys Fd U × ℕ) (ProtocolState Sys Fd U × WaylandError))
    dispatch_loop zero dispatched s = none
    dispatch_loop (suc fuel) dispatched s = elim (turn dispatched s) [
      | again counted s' ↦ dispatch_loop fuel (if counted then dispatched + 1 else dispatched) s'
      | stop r ↦ some r
    ]

    -- `guard.no_last_error()?`, and the loop.
    begin_dispatch :
        ℕ
        → ProtocolState Sys Fd U
        → Option WaylandError
        → Option (Outcome (ProtocolState Sys Fd U × ℕ) (ProtocolState Sys Fd U × WaylandError))
    begin_dispatch fuel s (some x) = some (fails (s, x))
    begin_dispatch fuel s none = dispatch_loop fuel 0 s

    unfoldable pub dispatch_events :
        ℕ
        → ProtocolState Sys Fd U
        → Option (Outcome (ProtocolState Sys Fd U × ℕ) (ProtocolState Sys Fd U × WaylandError))
    unfolding begin_dispatch
    dispatch_events fuel s = begin_dispatch fuel s s.last_error
