-- ===== src/Client/State.antt =====
-- The state that `ProtocolState` guards by its mutex, object ids, and the operations that the
-- requests and the events share. Printing (the `debug` flag and the log) has no effect on it and is
-- left out.
pub mod Given
use wayland_rs.Common.{
  ℕ, ◌+◌, ◌%◌, ◌^◌, Bool, false, ◌&&◌, Option, none, some, List, [], ◌∷◌, ◌++◌, ◌==◌, if◌then◌else◌,
  Result, ok, err, Outcome, returns, fails, panics, M, ◌>>◌,
}
use wayland_rs.Io.{IoError, IoResult, is_would_block}
use wayland_rs.Protocol.Interfaces.{Interface, InterfaceRef, same_interface, wl_display, anonymous}
use wayland_rs.Map.{ObjectMap, Object, find, with_object, new_map, insert_at}
use wayland_rs.Socket.{BufferedSocket, new_socket, flush}
use wayland_rs.Socket.System.{Kernel}

-- `Arc<dyn ObjectData>`: the two implementations of client_api.rs, and those of the user.
pub data ObjectData (U : Type 0) : Type 0 where
  dumb uninit : ObjectData U
  user : U → ObjectData U

pub record Data (U : Type 0) : Type 0 where
  pub client_destroyed : Bool
  pub server_destroyed : Bool
  pub user_data : ObjectData U
  pub serial : ℕ

pub record ObjectId : Type 0 where
  pub serial : ℕ
  pub id : ℕ
  pub interface : InterfaceRef

-- The texts of the errors that the client itself reports, before they are formatted.
pub data ErrorText : Type 0 where
  from_server : List ℕ → ErrorText
  malformed_message : ErrorText
  unknown_object : ℕ → ErrorText
  wrong_interface : ℕ → InterfaceRef → InterfaceRef → ErrorText
  invalid_new_id : InterfaceRef → ℕ → ErrorText

pub record ProtocolError : Type 0 where
  pub code : ℕ
  pub object_id : ℕ
  pub object_interface : List ℕ
  pub message : ErrorText

pub data WaylandError : Type 0 where
  io : IoError → WaylandError
  protocol : ProtocolError → WaylandError

pub data InvalidId : Type 0 where
  invalid_id : InvalidId

-- `notified` collects the calls of `ObjectData::destroyed`, which are made under the lock and so
-- cannot change the rest.
pub record ProtocolState (Sys Fd U : Type 0) : Type 0 where
  pub socket : BufferedSocket Sys Fd
  pub map : ObjectMap (Data U)
  pub last_error : Option WaylandError
  pub last_serial : ℕ
  pub notified : List (U × ObjectId)

unfoldable pub is_null : ObjectId → Bool
is_null o = o.id == 0

unfoldable pub id_eq : (ℕ → Interface) → ObjectId → ObjectId → Bool
id_eq statics a b =
    a.id == b.id && (a.serial == b.serial && same_interface statics a.interface b.interface)

abbrev pub null_id : ObjectId
null_id = record { serial = 0; id = 0; interface = anonymous }

abbrev pub display_id : ObjectId
display_id = record { serial = 0; id = 1; interface = wl_display }

module _ {U : Type 0} where
  abbrev pub display_object : Object (Data U)
  display_object = record {
    interface = wl_display;
    version = 1;
    user = record {
      client_destroyed = false;
      server_destroyed = false;
      user_data = dumb;
      serial = 0;
    };
  }

module _ {U : Type 0} where
  found : ObjectId → Option (Object (Data U)) → Result (Object (Data U)) InvalidId
  found o none = err invalid_id
  found o (some object) = if object.user.serial == o.serial then ok object else err invalid_id

  replace_data : ObjectId → U → Object (Data U) → Object (Data U) × Result (Unit {0}) InvalidId
  replace_data o u object =
      if object.user.serial == o.serial
      then (record object { user = record object.user { user_data = user u } }, ok tt)
      else (object, err invalid_id)

module _ {Sys Fd U : Type 0} where
  unfoldable pub next_serial : ProtocolState Sys Fd U → ProtocolState Sys Fd U × ℕ
  next_serial s =
      let serial = (s.last_serial + 1) % 2 ^ 32 in (record s { last_serial = serial }, serial)

  unfoldable pub no_last_error : M (ProtocolState Sys Fd U) WaylandError (Unit {0})
  no_last_error s = elim s.last_error [ some x ↦ fails (s, x) | none ↦ returns (s, tt) ]

  unfoldable pub store_and_return_error :
      {A : Type 0} → WaylandError → M (ProtocolState Sys Fd U) WaylandError A
  store_and_return_error x s = fails (record s { last_error = some x }, x)

  unfoldable pub store_if_not_wouldblock :
      {A : Type 0} → IoError → M (ProtocolState Sys Fd U) WaylandError A
  unfolding store_and_return_error
  store_if_not_wouldblock x s =
      if is_would_block x then fails (s, io x) else store_and_return_error (io x) s

  unfoldable pub get_object : ProtocolState Sys Fd U → ObjectId → Result (Object (Data U)) InvalidId
  unfolding found
  get_object s o = found o (find s.map o.id)

  -- `get_object(id)?`
  unfoldable pub lookup : ObjectId → M (ProtocolState Sys Fd U) InvalidId (Object (Data U))
  lookup o s = elim (get_object s o) [ ok object ↦ returns (s, object) | err x ↦ fails (s, x) ]

  -- `guard.map.with(id, f).unwrap()`
  unfoldable pub update_object :
      {E : Type 0} → ℕ → (Data U → Data U) → M (ProtocolState Sys Fd U) E (Unit {0})
  update_object id f s =
      let (map, r) = with_object s.map id (λ o. (record o { user = f o.user }, tt)) in
      elim r [ ok x ↦ returns (record s { map = map }, x) | err x ↦ panics ]

  -- `user_data.destroyed(id)`: `unreachable!()` on a DumbObjectData, nothing on an UninitObjectData.
  unfoldable pub notify_destroyed :
      {E : Type 0} → ObjectData U → ObjectId → M (ProtocolState Sys Fd U) E (Unit {0})
  notify_destroyed dumb o s = panics
  notify_destroyed uninit o s = returns (s, tt)
  notify_destroyed (user u) o s = returns (record s { notified = s.notified ++ (u, o) ∷ [] }, tt)

-- What `info` tells of an object.
pub record ObjectInfo : Type 0 where
  pub id : ℕ
  pub interface : InterfaceRef
  pub version : ℕ

module _ {Fd : Type 0} (k : Kernel Fd) {U : Type 0} where
  open k use {Sys}

  first_state :
      BufferedSocket Sys Fd
      → Result (ObjectMap (Data U)) (Unit {0})
      → Outcome (ProtocolState Sys Fd U) (Unit {0})
  first_state socket (err x) = panics
  first_state socket (ok map) =
      returns
        (record { socket = socket; map = map; last_error = none; last_serial = 0; notified = [] })

  unfoldable pub connect : Sys → Outcome (ProtocolState Sys Fd U) (Unit {0})
  unfolding first_state
  connect stream = first_state (new_socket k stream) (insert_at new_map 1 display_object)

  flushed :
      ProtocolState Sys Fd U
      → BufferedSocket Sys Fd × IoResult (Unit {0})
      → Outcome (ProtocolState Sys Fd U × Unit {0}) (ProtocolState Sys Fd U × WaylandError)
  flushed s (socket, ok x) = returns (record s { socket = socket }, x)
  flushed s (socket, err x) = store_if_not_wouldblock x (record s { socket = socket })

  unfoldable pub client_flush : M (ProtocolState Sys Fd U) WaylandError (Unit {0})
  unfolding no_last_error store_if_not_wouldblock flushed
  client_flush = do no_last_error; (λ s. flushed s (flush k s.socket))

module _ {Sys Fd U : Type 0} where
  unfoldable pub info : ProtocolState Sys Fd U → ObjectId → Result ObjectInfo InvalidId
  info s o = elim (get_object s o) [
    | err x ↦ err x
    | ok object ↦
        if object.user.client_destroyed
        then err invalid_id
        else ok (record { id = o.id; interface = object.interface; version = object.version })
  ]

  unfoldable pub get_data : ProtocolState Sys Fd U → ObjectId → Result (ObjectData U) InvalidId
  get_data s o = elim (get_object s o) [ err x ↦ err x | ok object ↦ ok object.user.user_data ]

  unfoldable pub set_data :
      ProtocolState Sys Fd U → ObjectId → U → ProtocolState Sys Fd U × Result (Unit {0}) InvalidId
  unfolding replace_data
  set_data s o u =
      let (map, r) = with_object s.map o.id (replace_data o u) in
      (record s { map = map }, elim r [ ok x ↦ x | err x ↦ err invalid_id ])
