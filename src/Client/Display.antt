-- ===== src/Client/Display.antt =====
-- `ProtocolState::handle_display_event`: the events of wl_display, which the backend keeps to itself.
pub mod Effects
use wayland_rs.Common.{
  ℕ, Bool, true, false, Option, none, some, Result, ok, err, List, [], ◌∷◌, ◌==◌, if◌then◌else◌, M,
  returns, panic,
}
use wayland_rs.Protocol.{Argument, Message}
use wayland_rs.Protocol.Interfaces.{Interface, deref, bytes_of}
use wayland_rs.Map.{ObjectMap, Object, find, with_object, remove}
use wayland_rs.Client.State.{
  Data, WaylandError, protocol, from_server, ProtocolState, store_and_return_error,
}

module _ {U : Type 0} where
  unfoldable pub interface_name : (ℕ → Interface) → Option (Object (Data U)) → List ℕ
  interface_name statics (some object) = (deref statics object.interface).name
  interface_name statics none = bytes_of "<unknown>"

  -- The closure given to `with`.
  unfoldable pub mark_deleted : Object (Data U) → Object (Data U) × Bool
  mark_deleted object = (
    record object { user = record object.user { server_destroyed = true } },
    object.user.client_destroyed,
  )

  -- `unwrap_or(false)`, and the removal.
  unfoldable pub settle : ℕ → ObjectMap (Data U) × Result Bool (Unit {0}) → ObjectMap (Data U)
  settle id (map, ok true) = remove map id
  settle id (map, ok false) = map
  settle id (map, err x) = map

  unfoldable pub delete_id : ObjectMap (Data U) → ℕ → ObjectMap (Data U)
  unfolding settle mark_deleted
  delete_id map id = settle id (with_object map id mark_deleted)

module _ (statics : ℕ → Interface) {Sys Fd U : Type 0} where
  -- Any other list of arguments is `unreachable!()` in the source, and so is any other opcode. The
  -- text is kept as its bytes.
  unfoldable pub handle_error :
      List (Argument ℕ Fd) → M (ProtocolState Sys Fd U) WaylandError (Unit {0})
  unfolding interface_name store_and_return_error
  handle_error (Argument.object o ∷ Argument.uint code ∷ Argument.str (some text) ∷ []) s =
      store_and_return_error
        (protocol (record {
          code = code;
          object_id = o;
          object_interface = interface_name statics (find s.map o);
          message = from_server text;
        }))
        s
  handle_error _ s = panic s

  unfoldable pub handle_delete_id :
      List (Argument ℕ Fd) → M (ProtocolState Sys Fd U) WaylandError (Unit {0})
  handle_delete_id (Argument.uint id ∷ []) s = returns (record s { map = delete_id s.map id }, tt)
  handle_delete_id _ s = panic s

  unfoldable pub handle_display_event :
      Message ℕ Fd → M (ProtocolState Sys Fd U) WaylandError (Unit {0})
  unfolding handle_error handle_delete_id
  handle_display_event m =
      if m.opcode == 0
      then handle_error m.args
      else if m.opcode == 1
      then handle_delete_id m.args
      else panic
