-- ===== src/Server/Sending.antt =====
-- `Client` of wayland-backend/src/rs/server_impl/client.rs: its creation, and the events that it is sent.
pub mod Accepted
pub mod Effect
pub mod Sent
pub mod Posted
use wayland_rs.Common.{
  ℕ, ◌+◌, false, not, Option, none, some, List, [], ◌∷◌, ltb, ◌==◌, get_elem?, if◌then◌else◌,
  Result, ok, err, Outcome, returns, fails, panics, M, ◌>>=◌, ◌>>◌, pure, unwrap, assert,
}
use wayland_rs.Io.{IoResult}
use wayland_rs.Protocol.{Argument, Message, check_for_signature}
use wayland_rs.Protocol.Interfaces.{
  InterfaceRef, MessageDesc, deref, same_interface, same_interface_or_anonymous, wl_display,
}
use wayland_rs.Map.{ObjectMap, Object, remove, insert_at, new_map, server_id_limit}
use wayland_rs.Socket.{BufferedSocket, new_socket, flush, write_message}
use wayland_rs.Client.State.{InvalidId}
use wayland_rs.Client.Request.{is_new_id, allows_null, next_interface}
use wayland_rs.Server.{ClientId, ServerObjectId, client_id_eq, Peer}
use wayland_rs.Server.Client.{
  ServerData, ServerText, DisplayError, display_error_code, PostedError, connection_closed,
  protocol_error, Host, Client, PendingDestructor, server_display_object, lookup_object, kill,
  queue_all_destructors,
}

module _ {RawFd Fd : Type 0} (host : Host RawFd Fd) where
  open host use {statics, endian, dup, kernel, render}
  open kernel use {Sys}

  module _ {U V : Type 0} where
    first_client :
        BufferedSocket Sys Fd
        → ClientId
        → V
        → Result (ObjectMap (ServerData U)) (Unit {0})
        → Option (Client Sys Fd U V)
    first_client socket id client_data (err x) = none
    first_client socket id client_data (ok objects) = some (record {
      socket = socket;
      map = objects;
      last_serial = 0;
      id = id;
      killed = false;
      client_data = client_data;
      disconnects = [];
    })

    -- `none` is the panic of the `unwrap`.
    unfoldable pub new_client : Sys → ClientId → V → Option (Client Sys Fd U V)
    unfolding first_client server_display_object
    new_client stream id client_data =
        first_client (new_socket kernel stream) id client_data
          (insert_at new_map 1 server_display_object)

    unfoldable pub client_flush : Client Sys Fd U V → Client Sys Fd U V × IoResult (Unit {0})
    client_flush c = let (socket, r) = flush kernel c.socket in (record c { socket = socket }, r)

    -- `if self.socket.write_message(&msg).is_err() { self.kill(ConnectionClosed) }`
    sent_or_killed :
        Client Sys Fd U V → BufferedSocket Sys Fd × IoResult (Unit {0}) → Client Sys Fd U V
    unfolding kill
    sent_or_killed c (socket, ok x) = record c { socket = socket }
    sent_or_killed c (socket, err x) = kill connection_closed (record c { socket = socket })

    unfoldable pub write_or_kill : Message ℕ RawFd → Client Sys Fd U V → Client Sys Fd U V
    unfolding sent_or_killed
    write_or_kill m c = sent_or_killed c (write_message endian dup kernel m c.socket)

    unfoldable pub send_delete_id : ServerObjectId → Client Sys Fd U V → Client Sys Fd U V
    unfolding write_or_kill
    send_delete_id o c =
        let told =
          if ltb o.id server_id_limit
          then write_or_kill (record { sender_id = 1; opcode = 1; args = Argument.uint o.id ∷ [] })
              c
          else c in
        record told { map = remove told.map o.id }

    -- The checks of a new id and of an object at the place `i` of an event.
    check_new_id : MessageDesc → ℕ → ServerObjectId → M (Client Sys Fd U V) InvalidId (Unit {0})
    unfolding is_new_id client_id_eq
    check_new_id desc i o c =
        (if not (o.id == 0)
            then (do
              assert (client_id_eq o.client_id c.id)
              object ← lookup_object o
              child_interface ← unwrap desc.child_interface
              assert (same_interface statics child_interface object.interface))
            else (do expected ← unwrap (get_elem? desc.signature i); assert (is_new_id expected)))
          c

    check_event_object :
        MessageDesc → ℕ → InterfaceRef → ServerObjectId → M (Client Sys Fd U V) InvalidId (Unit {0})
    unfolding allows_null client_id_eq
    check_event_object desc i expected o c =
        (if not (o.id == 0)
            then (do
              assert (client_id_eq o.client_id c.id)
              object ← lookup_object o
              assert (same_interface_or_anonymous statics expected object.interface))
            else (do allowed ← unwrap (allows_null (get_elem? desc.signature i)); assert allowed))
          c

    -- The arguments as they are sent; a new id is sent as an object.
    unfoldable pub event_args :
        MessageDesc
        → ℕ
        → List InterfaceRef
        → List (Argument ServerObjectId RawFd)
        → M (Client Sys Fd U V) InvalidId (List (Argument ℕ RawFd))
    unfolding check_new_id check_event_object next_interface
    event_args desc i interfaces [] = pure []
    event_args desc i interfaces (Argument.new_id o ∷ args) = do
      check_new_id desc i o
      rest ← event_args desc (i + 1) interfaces args
      pure (Argument.object o.id ∷ rest)
    event_args desc i interfaces (Argument.object o ∷ args) = do
      (expected, others) ← unwrap (next_interface interfaces)
      check_event_object desc i expected o
      rest ← event_args desc (i + 1) others args
      pure (Argument.object o.id ∷ rest)
    event_args desc i interfaces (Argument.int x ∷ args) = do
      rest ← event_args desc (i + 1) interfaces args
      pure (Argument.int x ∷ rest)
    event_args desc i interfaces (Argument.uint x ∷ args) = do
      rest ← event_args desc (i + 1) interfaces args
      pure (Argument.uint x ∷ rest)
    event_args desc i interfaces (Argument.fixed x ∷ args) = do
      rest ← event_args desc (i + 1) interfaces args
      pure (Argument.fixed x ∷ rest)
    event_args desc i interfaces (Argument.str x ∷ args) = do
      rest ← event_args desc (i + 1) interfaces args
      pure (Argument.str x ∷ rest)
    event_args desc i interfaces (Argument.array x ∷ args) = do
      rest ← event_args desc (i + 1) interfaces args
      pure (Argument.array x ∷ rest)
    event_args desc i interfaces (Argument.fd x ∷ args) = do
      rest ← event_args desc (i + 1) interfaces args
      pure (Argument.fd x ∷ rest)

    -- A destructor event destroys its object; its destructor is to be called.
    unfoldable pub finish_event :
        MessageDesc
        → Object (ServerData U)
        → ServerObjectId
        → Client Sys Fd U V
        → Client Sys Fd U V × List (PendingDestructor U)
    unfolding send_delete_id
    finish_event desc object o c =
        if desc.is_destructor
        then (
          send_delete_id o (record c { map = remove c.map o.id }),
          (object.user.user_data, c.id, o) ∷ [],
        )
        else (c, [])

    -- Returns what a caller that gives `pending_destructors` finds added to them.
    unfoldable pub send_event :
        Message ServerObjectId RawFd → M (Client Sys Fd U V) InvalidId (List (PendingDestructor U))
    unfolding event_args finish_event write_or_kill
    send_event m c =
        if c.killed
        then returns (c, [])
        else ((do
          object ← lookup_object m.sender_id
          desc ← unwrap (get_elem? (deref statics object.interface).events m.opcode)
          assert (check_for_signature desc.signature m.args)
          args ← event_args desc 0 desc.arg_interfaces m.args
          (λ s. returns (
              finish_event desc object m.sender_id (
                write_or_kill
                  (record { sender_id = m.sender_id.id; opcode = m.opcode; args = args }) s))))
            c)

    -- The id that wl_display has in every client.
    abbrev pub display_of : Client Sys Fd U V → ServerObjectId
    display_of c = record { id = 1; serial = 0; client_id = c.id; interface = wl_display }

    -- The result of the event is discarded, and that of the flush too.
    unfoldable pub end_with :
        PostedError
        → Outcome (Client Sys Fd U V × List (PendingDestructor U)) (Client Sys Fd U V × InvalidId)
        → Outcome (Client Sys Fd U V × Unit {0}) (Client Sys Fd U V × InvalidId)
    unfolding client_flush kill
    end_with error (returns (c, x)) = returns (kill (protocol_error error) (client_flush c).0, tt)
    end_with error (fails (c, x)) = returns (kill (protocol_error error) (client_flush c).0, tt)
    end_with error panics = panics

    unfoldable pub post_error :
        ServerObjectId → ℕ → List ℕ → M (Client Sys Fd U V) InvalidId (Unit {0})
    unfolding send_event end_with
    post_error o error_code message c =
        end_with
          (record {
            code = error_code;
            object_id = o.id;
            object_interface = (deref statics o.interface).name;
            message = message;
          })
          (send_event
            (record {
              sender_id = display_of c;
              opcode = 0;
              args =
                  Argument.object o ∷ Argument.uint error_code ∷ Argument.str (some message) ∷ [];
            })
            c)

    unfoldable pub post_display_error :
        DisplayError → ServerText → M (Client Sys Fd U V) InvalidId (Unit {0})
    unfolding post_error display_error_code
    post_display_error code text c =
        post_error (display_of c) (display_error_code code) (render text) c

-- The interface that the store and the registry use; their messages carry no descriptors.
module _ {Fd : Type 0} (host : Host ℕ Fd) where
  open host use {statics, endian, kernel}
  open kernel use {Sys}

  module _ {U V : Type 0} where
    without_destructors :
        Outcome (Client Sys Fd U V × List (PendingDestructor U)) (Client Sys Fd U V × InvalidId)
        → Outcome (Client Sys Fd U V × Unit {0}) (Client Sys Fd U V × InvalidId)
    without_destructors (returns (c, pending)) = returns (c, tt)
    without_destructors (fails x) = fails x
    without_destructors panics = panics

    -- `send_event(message, None)`
    unfoldable pub send_plain_event :
        Message ServerObjectId ℕ → M (Client Sys Fd U V) InvalidId (Unit {0})
    unfolding without_destructors
    send_plain_event m c = without_destructors (send_event host m c)

  abbrev pub client_peer : (U V : Type 0) → Peer (PendingDestructor U)
  client_peer U V = record {
    Client = Client Sys Fd U V;
    id = λ c. c.id;
    killed = λ c. c.killed;
    send_event = send_plain_event;
    queue_all_destructors = λ c. (c, queue_all_destructors c);
    flush = λ c. (client_flush host c).0;
  }
