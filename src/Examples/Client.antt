-- ===== src/Examples/Client.antt =====
-- A client that has one unread event of the display.
use wayland_rs.Common.{
  ℕ, ◌<◌, ◌≡◌, ◌↔◌, ◌⊎◌, refl, arith, false, Option, none, some, List, [], ◌∷◌, Outcome, returns,
  fails, panics, ok,
}
use wayland_rs.Common.Word.{little, header_len, header_opcode, split_u32}
use wayland_rs.Io.{would_block, pipe}
use wayland_rs.Protocol.{Argument, ArgumentType, Message, check_for_signature, same_type, get_type}
use wayland_rs.Protocol.Signature.{HasType, Fits}
use wayland_rs.Protocol.Interfaces.{
  deref, Interface, anonymous_interface, wl_display_interface, wl_callback, wl_display,
}
use wayland_rs.Map.{Object, ObjectMap, find, with_object, client_insert_new}
use wayland_rs.Wire.{parse_message, parse_args, parse_arg, fd_count}
use wayland_rs.Socket.{BufferedSocket, new_socket, fill_incoming_buffers, read_one_message}
use wayland_rs.Socket.Bytes.{
  new_buffer, get_contents, get_writable_storage, move_to_front, advance, put_writable,
}
use wayland_rs.Socket.Invariant.{Inv, used_all-new_socket, fills}
use wayland_rs.Client.State.{
  ObjectData, Data, ObjectId, InvalidId, invalid_id, lookup, get_object, store_and_return_error,
  WaylandError, io, ProtocolState, null_id, display_id, display_object,
}
use wayland_rs.Client.Request.{
  child_spec_of, create_child, fill_placeholders, resolve_args, write_request, destroy_sender,
  child_or_null, send_request,
}
use wayland_rs.Client.Request.Created.{Created, create_child-Created}
use wayland_rs.Client.Request.Sent.{Sent, send_request-Sent, send_request_refused}
use wayland_rs.Client.Display.{handle_display_event}
use wayland_rs.Client.Display.Effects.{IsNullError, handle_display_event-panics}
use wayland_rs.Client.Dispatch.{dispatch_events, dispatch_loop, turn, event_signature}
use wayland_rs.Client.Dispatch.Termination.{measure, dispatch_events_ends}
use wayland_rs.Client.Dispatch.Errors.{dispatch_events_stores}
use wayland_rs.Client.Dispatch.Events.{Known, read_one_message-Known}
use wayland_rs.Examples.Pipe.{Pipe, kernel, law, finite, dup}

abbrev statics : ℕ → Interface
statics n = anonymous_interface

-- The callback leaves the state alone, and gives data for a new object.
abbrev event : ℕ → Message ObjectId ℕ → ProtocolState Pipe ℕ ℕ → ProtocolState Pipe ℕ ℕ × Option ℕ
event u m s = (s, some u)

abbrev with_incoming : List ℕ → BufferedSocket Pipe ℕ
with_incoming bytes =
    new_socket kernel (record { sent = []; sent_fds = []; accepts = 5; incoming = bytes })

with_incoming-Inv : (bytes : List ℕ) → Inv (with_incoming bytes)
with_incoming-Inv bytes = used_all-new_socket little dup kernel law _ []

abbrev callback : Object (Data ℕ)
callback = record {
  interface = wl_callback;
  version = 1;
  user = record {
    client_destroyed = false;
    server_destroyed = false;
    user_data = ObjectData.user 7;
    serial = 1;
  };
}

abbrev objects : ObjectMap (Data ℕ)
objects = record {
  client_objects = some display_object ∷ none ∷ some callback ∷ [];
  server_objects = [];
}

abbrev state_of : BufferedSocket Pipe ℕ → ProtocolState Pipe ℕ ℕ
state_of b = record { socket = b; map = objects; last_error = none; last_serial = 1; notified = [] }

-- The event that deletes the id 3.
abbrev deleting : BufferedSocket Pipe ℕ
deleting = with_incoming (1 ∷ 0 ∷ 0 ∷ 0 ∷ 1 ∷ 0 ∷ 12 ∷ 0 ∷ 3 ∷ 0 ∷ 0 ∷ 0 ∷ [])

small : measure kernel finite deleting < 25
unfolding new_socket new_buffer get_contents finite
small = omega arith

dispatch_events_ends_example :
    (r : _) × (dispatch_events statics little kernel event 25 (state_of deleting) ≡ some r)
dispatch_events_ends_example =
    dispatch_events_ends statics little kernel law finite event (λ n u m s h. h) 25
      (state_of deleting) (with_incoming-Inv _) small

-- The state that an outcome carries.
abbrev state_after :
    {A E : Type 0}
    → Option (Outcome (ProtocolState Pipe ℕ ℕ × A) (ProtocolState Pipe ℕ ℕ × E))
    → ProtocolState Pipe ℕ ℕ
state_after (some (returns (s, a))) = s
state_after (some (fails (s, x))) = s
state_after _ = state_of deleting

abbrev closed : ProtocolState Pipe ℕ ℕ
closed = state_of (with_incoming [])

abbrev closed_run :
    Option (Outcome (ProtocolState Pipe ℕ ℕ × ℕ) (ProtocolState Pipe ℕ ℕ × WaylandError))
closed_run = dispatch_events statics little kernel event 3 closed

closed_fails : closed_run ≡ some (fails (state_after closed_run, io pipe))
unfolding dispatch_events fill_incoming_buffers new_socket dispatch_loop turn read_one_message
    get_contents new_buffer get_writable_storage move_to_front store_and_return_error
closed_fails = refl

dispatch_events_stores_example :
    (io pipe ≡ io would_block) ⊎ ((state_after closed_run).last_error ≡ some (io pipe))
dispatch_events_stores_example =
    dispatch_events_stores statics little kernel event 3 closed (state_after closed_run) (io pipe)
      closed_fails

abbrev filled : BufferedSocket Pipe ℕ
filled = (fill_incoming_buffers kernel deleting).0

abbrev delete_three : Message ℕ ℕ
delete_three = record { sender_id = 1; opcode = 1; args = Argument.uint 3 ∷ [] }

abbrev rest : BufferedSocket Pipe ℕ
rest = (read_one_message little (event_signature statics objects) filled).0

read_run :
    read_one_message little (event_signature statics objects) filled ≡ (rest, ok delete_three)
unfolding read_one_message event_signature fill_incoming_buffers new_socket get_writable_storage
    move_to_front new_buffer get_contents find advance put_writable split_u32 deref
    wl_display_interface header_opcode parse_message header_len fd_count parse_args parse_arg
read_run = refl

read_one_message-Known_example :
    (types : List ArgumentType) × Known statics objects 1 1 types × Fits types delete_three.args
read_one_message-Known_example =
    read_one_message-Known statics little objects filled rest delete_three
      (used_all-new_socket little dup kernel law _ (fills ∷ [])) read_run

-- An error without text.
abbrev null_error : Message ℕ ℕ
null_error = record {
  sender_id = 1;
  opcode = 0;
  args = Argument.object 3 ∷ Argument.uint 0 ∷ Argument.str none ∷ [];
}

handle_display_event-panics_example :
    (handle_display_event statics null_error closed ≡ panics) ↔ IsNullError null_error
unfolding wl_display_interface
handle_display_event-panics_example =
    handle_display_event-panics statics null_error closed _ refl
      (HasType.object, (HasType.uint, (HasType.str, tt)))

-- A sync, and the same of an object that is not there any more.
abbrev sync : Message ObjectId ℕ
sync = record { sender_id = display_id; opcode = 0; args = Argument.new_id null_id ∷ [] }

abbrev stale : Message ObjectId ℕ
stale = record sync { sender_id = record { id = 1; serial = 9; interface = wl_display } }

abbrev sync_run : Outcome (ProtocolState Pipe ℕ ℕ × ObjectId) (ProtocolState Pipe ℕ ℕ × InvalidId)
sync_run = send_request statics little dup kernel sync (some 4) none closed

abbrev synced : ObjectId
synced = record { serial = 2; id = 2; interface = wl_callback }

sync_returns : sync_run ≡ returns (state_after (some sync_run), synced)
unfolding send_request lookup get_object find deref wl_display_interface check_for_signature
    same_type get_type child_spec_of create_child with_object client_insert_new fill_placeholders
    resolve_args write_request destroy_sender child_or_null
sync_returns = refl

send_request-Sent_example :
    Sent statics little dup kernel closed.socket sync (state_after (some sync_run)) synced
send_request-Sent_example =
    send_request-Sent statics little dup kernel sync (some 4) none closed sync_returns

stale_run :
    send_request statics little dup kernel stale (some 4) none closed ≡ fails (closed, invalid_id)
unfolding send_request lookup get_object find
stale_run = refl

send_request_refused_example : closed.socket ≡ closed.socket
send_request_refused_example =
    send_request_refused statics little dup kernel stale (some 4) none closed stale_run

create_child-Created_example :
    (t : ProtocolState Pipe ℕ ℕ) × (c : ObjectId) × (create_child
        (some 4)
        (some (wl_callback, 1))
        closed
      ≡ returns (t, some c))
    × Created wl_callback 1 4 closed t c
create_child-Created_example = create_child-Created closed 4 wl_callback 1 (omega arith)

abbrev third : ObjectId
third = record { id = 3; serial = 1; interface = wl_callback }
