-- ===== src/Server/Client.antt =====
-- `Client` of wayland-backend/src/rs/server_impl/client.rs: one connection of the server. Its objects,
-- the events that it is sent, and its end.
pub mod Objects
use wayland_rs.Common.{
  ℕ, ◌+◌, ◌%◌, ◌^◌, Bool, true, Option, none, some, List, [], ◌∷◌, ◌++◌, map, ◌==◌, if◌then◌else◌,
  Result, ok, err, returns, fails, M,
}
use wayland_rs.Common.Word.{Endian}
use wayland_rs.Io.{IoResult}
use wayland_rs.Protocol.Interfaces.{Interface, InterfaceRef, wl_display}
use wayland_rs.Map.{ObjectMap, Object, find, with_object, server_insert_new, all_objects}
use wayland_rs.Socket.{BufferedSocket}
use wayland_rs.Socket.System.{Kernel}
use wayland_rs.Client.State.{ObjectData, dumb, user, InvalidId, invalid_id, ObjectInfo}
use wayland_rs.Server.{ClientId, ServerObjectId}

-- `Data` of server_impl/mod.rs. The dumb and the uninitialised data are those of the server.
pub record ServerData (U : Type 0) : Type 0 where
  pub user_data : ObjectData U
  pub serial : ℕ

-- The texts that the backend formats for its own errors.
pub data ServerText : Type 0 where
  unknown_id : ℕ → ServerText
  invalid_object : ℕ → InterfaceRef → List ℕ → InterfaceRef → InterfaceRef → ServerText
  invalid_null : InterfaceRef → List ℕ → ServerText
  bad_new_id : ℕ → ServerText
  invalid_binding : List ℕ → ℕ → ℕ → ServerText
  unknown_opcode : ℕ → InterfaceRef → ServerText

pub data DisplayError : Type 0 where
  invalid_object_error invalid_method no_memory implementation : DisplayError

-- `code as u32`
unfoldable pub display_error_code : DisplayError → ℕ
display_error_code invalid_object_error = 0
display_error_code invalid_method = 1
display_error_code no_memory = 2
display_error_code implementation = 3

-- `ProtocolError`, with its message as bytes.
pub record PostedError : Type 0 where
  pub code : ℕ
  pub object_id : ℕ
  pub object_interface : List ℕ
  pub message : List ℕ

pub data DisconnectReason : Type 0 where
  connection_closed : DisconnectReason
  protocol_error : PostedError → DisconnectReason

-- What the machine and the program around it give: the table of statics, the byte order, the system
-- calls, and `format!`.
pub record Host (RawFd Fd : Type 0) : Type 1 where
  pub statics : ℕ → Interface
  pub endian : Endian
  pub dup : RawFd → IoResult Fd
  pub kernel : Kernel Fd
  pub render : ServerText → List ℕ

-- `V` stands for `Arc<dyn ClientData>`; `disconnects` collects the calls of its `disconnected`.
pub record Client (Sys Fd U V : Type 0) : Type 0 where
  pub socket : BufferedSocket Sys Fd
  pub map : ObjectMap (ServerData U)
  pub last_serial : ℕ
  pub id : ClientId
  pub killed : Bool
  pub client_data : V
  pub disconnects : List DisconnectReason

-- The data, the client and the id of an object whose `destroyed` is still to be called.
abbrev pub PendingDestructor : Type 0 → Type 0
PendingDestructor U = ObjectData U × ClientId × ServerObjectId

module _ {U : Type 0} where
  unfoldable pub server_display_object : Object (ServerData U)
  server_display_object = record {
    interface = wl_display;
    version = 1;
    user = record { user_data = dumb; serial = 0 };
  }

  unfoldable pub with_serial :
      ServerObjectId → Option (Object (ServerData U)) → Result (Object (ServerData U)) InvalidId
  with_serial o none = err invalid_id
  with_serial o (some object) = if object.user.serial == o.serial then ok object else err invalid_id

  replace_user_data :
      ServerObjectId
      → U
      → Object (ServerData U)
      → Object (ServerData U) × Result (Unit {0}) InvalidId
  replace_user_data o u object =
      if object.user.serial == o.serial
      then (record object { user = record object.user { user_data = user u } }, ok tt)
      else (object, err invalid_id)

  -- An object of the map as an id.
  abbrev pub id_in : ClientId → ℕ → Object (ServerData U) → ServerObjectId
  id_in client id object = record {
    id = id;
    serial = object.user.serial;
    client_id = client;
    interface = object.interface;
  }

module _ {Sys Fd U V : Type 0} where
  unfoldable pub next_client_serial : Client Sys Fd U V → Client Sys Fd U V × ℕ
  next_client_serial c =
      let serial = (c.last_serial + 1) % 2 ^ 32 in (record c { last_serial = serial }, serial)

  unfoldable pub kill : DisconnectReason → Client Sys Fd U V → Client Sys Fd U V
  kill reason c = record c { killed = true; disconnects = c.disconnects ++ reason ∷ [] }

  unfoldable pub client_object :
      Client Sys Fd U V → ServerObjectId → Result (Object (ServerData U)) InvalidId
  unfolding with_serial
  client_object c o = with_serial o (find c.map o.id)

  -- `self.get_object(id)?`
  unfoldable pub lookup_object :
      ServerObjectId → M (Client Sys Fd U V) InvalidId (Object (ServerData U))
  lookup_object o c = elim (client_object c o) [
    | ok object ↦ returns (c, object)
    | err x ↦ fails (c, x)
  ]

  unfoldable pub create_object :
      InterfaceRef → ℕ → U → Client Sys Fd U V → Client Sys Fd U V × ServerObjectId
  unfolding next_client_serial
  create_object interface version u c =
      let (c', serial) = next_client_serial c in
      let (map, id) = server_insert_new c'.map (record {
        interface = interface;
        version = version;
        user = record { user_data = user u; serial = serial };
      }) in
      (
        record c' { map = map },
        record { id = id; serial = serial; client_id = c.id; interface = interface },
      )

  unfoldable pub object_info : Client Sys Fd U V → ServerObjectId → Result ObjectInfo InvalidId
  object_info c o = elim (client_object c o) [
    | ok object ↦ ok (record { id = o.id; interface = object.interface; version = object.version })
    | err x ↦ err x
  ]

  unfoldable pub get_object_data :
      Client Sys Fd U V → ServerObjectId → Result (ObjectData U) InvalidId
  get_object_data c o = elim (client_object c o) [
    | ok object ↦ ok object.user.user_data
    | err x ↦ err x
  ]

  unfoldable pub set_object_data :
      Client Sys Fd U V → ServerObjectId → U → Client Sys Fd U V × Result (Unit {0}) InvalidId
  unfolding replace_user_data
  set_object_data c o u =
      let (map, r) = with_object c.map o.id (replace_user_data o u) in
      (record c { map = map }, elim r [ ok x ↦ x | err x ↦ err invalid_id ])

  unfoldable pub object_for_protocol_id : Client Sys Fd U V → ℕ → Result ServerObjectId InvalidId
  object_for_protocol_id c pid = elim (find c.map pid) [
    | some object ↦ ok (id_in c.id pid object)
    | none ↦ err invalid_id
  ]

  unfoldable pub all_object_ids : Client Sys Fd U V → List ServerObjectId
  all_object_ids c = map (λ (id, object). id_in c.id id object) (all_objects c.map)

  unfoldable pub queue_all_destructors : Client Sys Fd U V → List (PendingDestructor U)
  queue_all_destructors c =
      map (λ (id, object). (object.user.user_data, c.id, id_in c.id id object)) (all_objects c.map)
