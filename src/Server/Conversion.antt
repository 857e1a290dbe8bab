-- ===== src/Server/Conversion.antt =====
-- `Client::process_request` of wayland-backend/src/rs/server_impl/client.rs: the arguments of a request as
-- its handler gets them.
pub mod Delivered
pub mod Converted
use wayland_rs.Common.{
  ℕ, ◌+◌, Bool, not, Option, none, some, List, [], ◌∷◌, ◌==◌, get_elem?, if◌then◌else◌, Result, ok,
  err, Outcome, returns, fails, panics, M, ◌>>=◌, ◌>>◌, pure, unwrap,
}
use wayland_rs.Protocol.{Argument, Message}
use wayland_rs.Protocol.Interfaces.{
  InterfaceRef, MessageDesc, deref, same_interface_or_anonymous, anonymous,
}
use wayland_rs.Map.{ObjectMap, Object, find, insert_at}
use wayland_rs.Client.State.{uninit, InvalidId}
use wayland_rs.Client.Request.{allows_null}
use wayland_rs.Server.{ServerObjectId}
use wayland_rs.Server.Client.{
  ServerData, ServerText, unknown_id, invalid_object, invalid_null, bad_new_id, DisplayError,
  invalid_object_error, Host, Client, id_in, next_client_serial,
}
use wayland_rs.Server.Sending.{post_display_error}

-- The arguments of a request as the handler gets them, and the id that it creates.
pub record Request (Fd : Type 0) : Type 0 where
  pub args : List (Argument ServerObjectId Fd)
  pub created_id : Option ServerObjectId

abbrev pub request_arg : {Fd : Type 0} → Argument ServerObjectId Fd → Request Fd → Request Fd
request_arg a r = record r { args = a ∷ r.args }

-- `created_id` is what the last argument that creates an object has set it to.
abbrev pub request_created : {Fd : Type 0} → ServerObjectId → Request Fd → Request Fd
request_created id r = record {
  args = Argument.new_id id ∷ r.args;
  created_id = elim r.created_id [ none ↦ some id | some later ↦ some later ];
}

first_of : List InterfaceRef → Option InterfaceRef
first_of [] = none
first_of (i ∷ is) = some i

rest_of : List InterfaceRef → List InterfaceRef
rest_of [] = []
rest_of (i ∷ is) = is

module _ {Fd : Type 0} (host : Host ℕ Fd) where
  open host use {statics, endian, kernel}
  open kernel use {Sys}

  module _ {U V : Type 0} where
    -- `self.post_display_error(...); return None`
    refused :
        {A : Type 0}
        → Outcome (Client Sys Fd U V × Unit {0}) (Client Sys Fd U V × InvalidId)
        → Outcome (Client Sys Fd U V × A) (Client Sys Fd U V × Unit {0})
    refused (returns (c, x)) = fails (c, tt)
    refused (fails (c, x)) = fails (c, tt)
    refused panics = panics

    unfoldable pub refuse :
        {A : Type 0} → DisplayError → ServerText → M (Client Sys Fd U V) (Unit {0}) A
    unfolding refused
    refuse error text c = refused (post_display_error host error text c)

    known_argument : ℕ → M (Client Sys Fd U V) (Unit {0}) (Object (ServerData U))
    unfolding refuse
    known_argument o c = elim (find c.map o) [
      | some object ↦ returns (c, object)
      | none ↦ refuse invalid_object_error (unknown_id o) c
    ]

    -- `if let Some(next_interface) = arg_interfaces.next()`
    check_argument :
        InterfaceRef
        → MessageDesc
        → Option InterfaceRef
        → ℕ
        → Object (ServerData U)
        → M (Client Sys Fd U V) (Unit {0}) (Unit {0})
    unfolding refuse
    check_argument interface desc none o object = pure tt
    check_argument interface desc (some expected) o object =
        if same_interface_or_anonymous statics expected object.interface
        then pure tt
        else refuse invalid_object_error
            (invalid_object o interface desc.name expected object.interface)

    request_object :
        InterfaceRef
        → MessageDesc
        → ℕ
        → Option InterfaceRef
        → ℕ
        → M (Client Sys Fd U V) (Unit {0}) ServerObjectId
    unfolding known_argument check_argument allows_null refuse
    request_object interface desc i expected o c =
        (if not (o == 0)
            then (do
              object ← known_argument o
              check_argument interface desc expected o object
              pure (id_in c.id o object))
            else (do
              allowed ← unwrap (allows_null (get_elem? desc.signature i))
              if allowed
                  then pure (record { id = 0; client_id = c.id; serial = 0; interface = anonymous })
                  else refuse invalid_object_error (invalid_null interface desc.name)))
          c

    created_object :
        Client Sys Fd U V
        → ServerObjectId
        → Result (ObjectMap (ServerData U)) (Unit {0})
        → Outcome (Client Sys Fd U V × ServerObjectId) (Client Sys Fd U V × Unit {0})
    unfolding refuse
    created_object c id (ok map) = returns (record c { map = map }, id)
    created_object c id (err x) = refuse invalid_object_error (bad_new_id id.id) c

    create_requested :
        Object (ServerData U) → InterfaceRef → ℕ → M (Client Sys Fd U V) (Unit {0}) ServerObjectId
    unfolding created_object next_client_serial
    create_requested object child_interface new_id c =
        let (c', serial) = next_client_serial c in
        created_object c'
          (record { id = new_id; client_id = c'.id; serial = serial; interface = child_interface })
          (insert_at c'.map new_id (record {
            interface = child_interface;
            version = object.version;
            user = record { user_data = uninit; serial = serial };
          }))

    -- The checks of the arguments and the objects that they create.
    unfoldable pub convert_request :
        Object (ServerData U)
        → MessageDesc
        → ℕ
        → List InterfaceRef
        → List (Argument ℕ Fd)
        → M (Client Sys Fd U V) (Unit {0}) (Request Fd)
    unfolding request_object create_requested first_of rest_of
    convert_request object desc i interfaces [] = pure (record { args = []; created_id = none })
    convert_request object desc i interfaces (Argument.object o ∷ args) = do
      id ← request_object object.interface desc i (first_of interfaces) o
      rest ← convert_request object desc (i + 1) (rest_of interfaces) args
      pure (request_arg (Argument.object id) rest)
    convert_request object desc i interfaces (Argument.new_id n ∷ args) = do
      child_interface ← unwrap desc.child_interface
      id ← create_requested object child_interface n
      rest ← convert_request object desc (i + 1) interfaces args
      pure (request_created id rest)
    convert_request object desc i interfaces (Argument.int x ∷ args) = do
      rest ← convert_request object desc (i + 1) interfaces args
      pure (request_arg (Argument.int x) rest)
    convert_request object desc i interfaces (Argument.uint x ∷ args) = do
      rest ← convert_request object desc (i + 1) interfaces args
      pure (request_arg (Argument.uint x) rest)
    convert_request object desc i interfaces (Argument.fixed x ∷ args) = do
      rest ← convert_request object desc (i + 1) interfaces args
      pure (request_arg (Argument.fixed x) rest)
    convert_request object desc i interfaces (Argument.str x ∷ args) = do
      rest ← convert_request object desc (i + 1) interfaces args
      pure (request_arg (Argument.str x) rest)
    convert_request object desc i interfaces (Argument.array x ∷ args) = do
      rest ← convert_request object desc (i + 1) interfaces args
      pure (request_arg (Argument.array x) rest)
    convert_request object desc i interfaces (Argument.fd x ∷ args) = do
      rest ← convert_request object desc (i + 1) interfaces args
      pure (request_arg (Argument.fd x) rest)

    -- `None` is a refused request, `Some` what `process_request` gives back, with whether the request is
    -- a destructor.
    processed :
        Bool
        → Outcome (Client Sys Fd U V × Request Fd) (Client Sys Fd U V × Unit {0})
        → Outcome (Client Sys Fd U V × Option (Request Fd × Bool)) (Client Sys Fd U V × InvalidId)
    processed is_destructor (returns (c, r)) = returns (c, some (r, is_destructor))
    processed is_destructor (fails (c, x)) = returns (c, none)
    processed is_destructor panics = panics

    described :
        Object (ServerData U)
        → Message ℕ Fd
        → Option MessageDesc
        → M (Client Sys Fd U V) InvalidId (Option (Request Fd × Bool))
    unfolding convert_request processed
    described object m none c = panics
    described object m (some desc) c =
        processed desc.is_destructor (convert_request object desc 0 desc.arg_interfaces m.args c)

    unfoldable pub process_request :
        Object (ServerData U)
        → Message ℕ Fd
        → M (Client Sys Fd U V) InvalidId (Option (Request Fd × Bool))
    unfolding described
    process_request object m =
        described object m (get_elem? (deref statics object.interface).requests m.opcode)
