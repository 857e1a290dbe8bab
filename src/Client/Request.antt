-- ===== src/Client/Request.antt =====
-- `InnerBackend::send_request`, from its checks to the message that it writes. A `panic!`, an
-- `unwrap` or an `expect` that fails is `panics`.
pub mod Created
pub mod Quiet
pub mod Sent
use wayland_rs.Common.{
  ℕ, ◌+◌, Bool, true, false, not, ◌||◌, Option, none, some, List, [], ◌∷◌, ◌==◌, get_elem?,
  if◌then◌else◌, ok, err, returns, M, ◌>>=◌, ◌>>◌, pure, fail, panic, unwrap, assert,
}
use wayland_rs.Common.Word.{Endian}
use wayland_rs.Io.{IoResult}
use wayland_rs.Protocol.{Argument, ArgumentType, nullable, Message, check_for_signature}
use wayland_rs.Protocol.Interfaces.{
  Interface, InterfaceRef, MessageDesc, deref, same_interface, same_interface_or_anonymous,
}
use wayland_rs.Map.{Object, client_insert_new}
use wayland_rs.Socket.{BufferedSocket, write_message}
use wayland_rs.Socket.System.{Kernel}
use wayland_rs.Client.State.{
  dumb, user, Data, ObjectId, InvalidId, invalid_id, io, ProtocolState, null_id, next_serial,
  lookup, update_object, notify_destroyed,
}

-- `matches!(arg, ArgumentType::NewId)`
unfoldable pub is_new_id : ArgumentType → Bool
is_new_id ArgumentType.new_id = true
is_new_id _ = false

unfoldable pub any_new_id : List ArgumentType → Bool
any_new_id [] = false
any_new_id (t ∷ ts) = is_new_id t || any_new_id ts

-- `matches!(signature[i], ArgumentType::Object(AllowNull::Yes))`; an index out of range panics.
unfoldable pub allows_null : Option ArgumentType → Option Bool
allows_null none = none
allows_null (some (ArgumentType.object nullable)) = some true
allows_null (some _) = some false

-- `arg_interfaces.next()`: the interface, and what the iterator still has.
unfoldable pub next_interface : List InterfaceRef → Option (InterfaceRef × List InterfaceRef)
next_interface [] = none
next_interface (i ∷ is) = some (i, is)

unfoldable pub child_or_null : Option ObjectId → ObjectId
child_or_null (some c) = c
child_or_null none = null_id

module _ (statics : ℕ → Interface) {Sys Fd U : Type 0} where
  -- The interface and the version of the object that the request creates, if it creates one.
  chosen_child :
      MessageDesc
      → ℕ
      → Option (InterfaceRef × ℕ)
      → M (ProtocolState Sys Fd U) InvalidId (Option (InterfaceRef × ℕ))
  chosen_child desc version none = elim desc.child_interface [
    | some child_interface ↦ pure (some (child_interface, version))
    | none ↦ panic
  ]
  chosen_child desc version (some (iface, v)) = elim desc.child_interface [
    | some child_interface ↦ do
      assert (same_interface statics child_interface iface)
      assert (v == version)
      pure (some (iface, v))
    | none ↦ pure (some (iface, v))
  ]

  unfoldable pub child_spec_of :
      MessageDesc
      → ℕ
      → Option (InterfaceRef × ℕ)
      → M (ProtocolState Sys Fd U) InvalidId (Option (InterfaceRef × ℕ))
  unfolding chosen_child any_new_id is_new_id
  child_spec_of desc version spec =
      if any_new_id desc.signature then chosen_child desc version spec else pure none

module _ {Sys Fd U : Type 0} where
  -- The new object, first with the dumb data that is then replaced by `data`.
  unfoldable pub create_child :
      Option U → Option (InterfaceRef × ℕ) → M (ProtocolState Sys Fd U) InvalidId (Option ObjectId)
  unfolding next_serial update_object
  create_child data_of none s = returns (s, none)
  create_child data_of (some (iface, version)) s =
      let (s', serial) = next_serial s in
      let (map, id) = client_insert_new s'.map (record {
        interface = iface;
        version = version;
        user = record {
          client_destroyed = false;
          server_destroyed = false;
          user_data = dumb;
          serial = serial;
        };
      }) in
      (do
        u ← unwrap data_of
        update_object id (λ d. record d { user_data = user u })
        pure (some (record { serial = serial; id = id; interface = iface })))
        (record s' { map = map })

  -- The placeholders of a request are replaced by the id of the child; there is one in that case,
  -- or the source has `unreachable!()`.
  placeholder :
      {RawFd : Type 0}
      → Option ObjectId
      → Argument ObjectId RawFd
      → M (ProtocolState Sys Fd U) InvalidId (Argument ObjectId RawFd)
  placeholder child (Argument.new_id p) = do
    assert (p.id == 0)
    c ← unwrap child
    pure (Argument.new_id c)
  placeholder child a = pure a

  unfoldable pub fill_placeholders :
      {RawFd : Type 0}
      → Option ObjectId
      → List (Argument ObjectId RawFd)
      → M (ProtocolState Sys Fd U) InvalidId (List (Argument ObjectId RawFd))
  unfolding placeholder
  fill_placeholders child [] = pure []
  fill_placeholders child (a ∷ args) = do
    b ← placeholder child a
    rest ← fill_placeholders child args
    pure (b ∷ rest)

module _ (statics : ℕ → Interface) {Sys Fd U : Type 0} where
  -- The checks of an object argument at the place `i`.
  check_object :
      MessageDesc → ℕ → InterfaceRef → ObjectId → M (ProtocolState Sys Fd U) InvalidId (Unit {0})
  unfolding allows_null
  check_object desc i expected o =
      if not (o.id == 0)
      then (do
        object ← lookup o
        assert (same_interface_or_anonymous statics expected object.interface))
      else (do allowed ← unwrap (allows_null (get_elem? desc.signature i)); assert allowed)

  unfoldable pub resolve_args :
      {RawFd : Type 0}
      → MessageDesc
      → ℕ
      → List InterfaceRef
      → List (Argument ObjectId RawFd)
      → M (ProtocolState Sys Fd U) InvalidId (List (Argument ℕ RawFd))
  unfolding check_object next_interface
  resolve_args desc i interfaces [] = pure []
  resolve_args desc i interfaces (Argument.object o ∷ args) = do
    (expected, others) ← unwrap (next_interface interfaces)
    check_object desc i expected o
    rest ← resolve_args desc (i + 1) others args
    pure (Argument.object o.id ∷ rest)
  resolve_args desc i interfaces (Argument.new_id n ∷ args) = do
    rest ← resolve_args desc (i + 1) interfaces args
    pure (Argument.new_id n.id ∷ rest)
  resolve_args desc i interfaces (Argument.int x ∷ args) = do
    rest ← resolve_args desc (i + 1) interfaces args
    pure (Argument.int x ∷ rest)
  resolve_args desc i interfaces (Argument.uint x ∷ args) = do
    rest ← resolve_args desc (i + 1) interfaces args
    pure (Argument.uint x ∷ rest)
  resolve_args desc i interfaces (Argument.fixed x ∷ args) = do
    rest ← resolve_args desc (i + 1) interfaces args
    pure (Argument.fixed x ∷ rest)
  resolve_args desc i interfaces (Argument.str x ∷ args) = do
    rest ← resolve_args desc (i + 1) interfaces args
    pure (Argument.str x ∷ rest)
  resolve_args desc i interfaces (Argument.array x ∷ args) = do
    rest ← resolve_args desc (i + 1) interfaces args
    pure (Argument.array x ∷ rest)
  resolve_args desc i interfaces (Argument.fd x ∷ args) = do
    rest ← resolve_args desc (i + 1) interfaces args
    pure (Argument.fd x ∷ rest)

module _ {Sys Fd U : Type 0} where
  -- What a request makes of its object, if it is a destructor.
  unfoldable pub destroy_sender :
      MessageDesc → Object (Data U) → ObjectId → M (ProtocolState Sys Fd U) InvalidId (Unit {0})
  destroy_sender desc object o =
      if desc.is_destructor
      then (do
        update_object o.id (λ d. record d { client_destroyed = true })
        notify_destroyed object.user.user_data o)
      else pure tt

module _ (statics : ℕ → Interface) (e : Endian) {RawFd Fd : Type 0}
    (dup : RawFd → IoResult Fd) where
  module _ (k : Kernel Fd) {U : Type 0} where
    open k use {Sys}

    wrote :
        ProtocolState Sys Fd U
        → BufferedSocket Sys Fd × IoResult (Unit {0})
        → ProtocolState Sys Fd U
    wrote s (socket, ok _) = record s { socket = socket }
    wrote s (socket, err x) = record s { socket = socket; last_error = some (io x) }

    -- A failed write is not the result of the request, but the connection's last error.
    unfoldable pub write_request : Message ℕ RawFd → M (ProtocolState Sys Fd U) InvalidId (Unit {0})
    unfolding wrote
    write_request m s = returns (wrote s (write_message e dup k m s.socket), tt)

    -- The part behind the checks of the sender.
    unfoldable pub send_checked :
        Message ObjectId RawFd
        → Option U
        → Option (InterfaceRef × ℕ)
        → Object (Data U)
        → MessageDesc
        → M (ProtocolState Sys Fd U) InvalidId ObjectId
    send_checked m data_of spec object desc = do
      chosen ← child_spec_of statics desc object.version spec
      child ← create_child data_of chosen
      args ← fill_placeholders child m.args
      wire ← resolve_args statics desc 0 desc.arg_interfaces args
      write_request (record { sender_id = m.sender_id.id; opcode = m.opcode; args = wire })
      destroy_sender desc object m.sender_id
      pure (child_or_null child)

    unfoldable pub send_request :
        Message ObjectId RawFd
        → Option U
        → Option (InterfaceRef × ℕ)
        → M (ProtocolState Sys Fd U) InvalidId ObjectId
    unfolding send_checked
    send_request m data_of spec = do
      object ← lookup m.sender_id
      desc ← unwrap (get_elem? (deref statics object.interface).requests m.opcode)
      if object.user.client_destroyed then fail invalid_id else (do
        assert (check_for_signature desc.signature m.args)
        send_checked m data_of spec object desc)
