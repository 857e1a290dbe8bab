-- ===== src/Examples/ServerClient.antt =====
-- A client of the server with three objects: its wl_display, a wl_callback, and an object whose one request
-- takes a callback and creates another.
use mathlib.Core.Path.{subst}
use wayland_rs.Common.{
  ℕ, zero, suc, ◌<◌, ◌≡◌, ◌↔◌, ◌⊎◌, refl, arith, true, false, Option, some, none, List, [], ◌∷◌,
  ◌==◌, if◌then◌else◌, Outcome, returns, fails, panics, ok, err,
}
use wayland_rs.Common.Word.{little}
use wayland_rs.Protocol.{
  Argument, ArgumentType, nullable, Message, check_for_signature, same_type, get_type,
}
use wayland_rs.Protocol.Interfaces.{
  Interface, generated, wl_callback, wl_display, wl_callback_interface, wl_display_interface,
  anonymous_interface, bytes_of, deref, same_interface_or_anonymous, same_interface, ptr_eq,
}
use wayland_rs.Map.{Object, find, slot, insert_at}
use wayland_rs.Map.Bounds.{IsBounded}
use wayland_rs.Map.Iterate.{In}
use wayland_rs.Socket.{BufferedSocket, new_socket, write_message, attempt_write_message}
use wayland_rs.Socket.Bytes.{get_writable_storage, new_buffer, get_contents}
use wayland_rs.Wire.{write_to_buffers, write_args, write_arg, write_buf}
use wayland_rs.Socket.Invariant.{Inv, used_all-new_socket}
use wayland_rs.Client.State.{ObjectData, invalid_id}
use wayland_rs.Client.Dispatch.Termination.{measure}
use wayland_rs.Server.{ClientId, ServerObjectId, get_client}
use wayland_rs.Server.Client.{
  ServerData, unknown_opcode, invalid_method, Host, Client, PendingDestructor,
  server_display_object, client_object, lookup_object, create_object,
}
use wayland_rs.Server.Client.Objects.{created, client_object-create_object}
use wayland_rs.Server.Sending.{send_event, post_display_error}
use wayland_rs.Server.Sending.Sent.{Sent, send_event-Sent, send_event_refused}
use wayland_rs.Server.Sending.Posted.{Posted, post_display_error-Posted}
use wayland_rs.Server.Requests.{next_request}
use wayland_rs.Server.Requests.Termination.{next_request_ends}
use wayland_rs.Server.Conversion.{Request, process_request}
use wayland_rs.Server.Conversion.Delivered.{Delivered}
use wayland_rs.Server.Conversion.Converted.{Grown, process_request-Grown, process_request_refused}
use wayland_rs.Server.Registry.{RegistryState}
use wayland_rs.Server.Handlers.{sync, handle_registry_request}
use wayland_rs.Server.Handlers.Sync.{Answered, sync-Answered}
use wayland_rs.Server.Handlers.Binding.{bind_message, handle_registry_request_panics_iff}
use wayland_rs.Server.Display.{ServerState, client_of, state_cleanup}
use wayland_rs.Server.Dispatch.{Callbacks, call_request}
use wayland_rs.Server.Dispatch.Given.{Stored, call_request-Stored}
use wayland_rs.Server.Cleanup.{Orphan, state_cleanup_iff}
use wayland_rs.Examples.Pipe.{Pipe, kernel, law, finite, dup}

abbrev statics : ℕ → Interface
statics n = record {
  name = bytes_of "test";
  version = 1;
  requests =
      record {
        name = bytes_of "copy";
        since = 1;
        is_destructor = false;
        signature = ArgumentType.object nullable ∷ ArgumentType.new_id ∷ [];
        child_interface = some wl_callback;
        arg_interfaces = wl_callback ∷ [];
      }
      ∷ [];
  events = [];
}

abbrev host : Host ℕ ℕ
host = record {
  statics = statics;
  endian = little;
  dup = dup;
  kernel = kernel;
  render = λ text. 63 ∷ [];
}

abbrev first : ClientId
first = record { id = 0; serial = 1 }

abbrev callback : Object (ServerData ℕ)
callback = record {
  interface = wl_callback;
  version = 1;
  user = record { user_data = ObjectData.user 7; serial = 1 };
}

abbrev copier : Object (ServerData ℕ)
copier = record {
  interface = generated 0;
  version = 1;
  user = record { user_data = ObjectData.user 8; serial = 2 };
}

abbrev socket : BufferedSocket Pipe ℕ
socket = new_socket kernel (record { sent = []; sent_fds = []; accepts = 5; incoming = 1 ∷ 0 ∷ [] })

socket-Inv : Inv socket
socket-Inv = used_all-new_socket little dup kernel law _ []

abbrev display : Object (ServerData ℕ)
display = record {
  interface = wl_display;
  version = 1;
  user = record { user_data = ObjectData.dumb; serial = 0 };
}

abbrev client : Client Pipe ℕ ℕ ℕ
client = record {
  socket = socket;
  map = record {
    client_objects = some display ∷ some callback ∷ some copier ∷ [];
    server_objects = [];
  };
  last_serial = 2;
  id = first;
  killed = false;
  client_data = 5;
  disconnects = [];
}

abbrev callback_id : ServerObjectId
callback_id = record { id = 2; serial = 1; client_id = first; interface = wl_callback }

client_display : find client.map 1 ≡ some server_display_object
unfolding find slot server_display_object
client_display = refl

client_object-create_object_example :
    (find client.map (create_object wl_callback 1 9 client).1.id ≡ none)
    × (client_object (create_object wl_callback 1 9 client).0 callback_id ≡ (
        if (create_object wl_callback 1 9 client).1.id == 2
        then (if (create_object wl_callback 1 9 client).1.serial == 1
            then ok (created wl_callback 1 9 client (omega arith))
            else err invalid_id)
        else client_object client callback_id))
client_object-create_object_example =
    client_object-create_object wl_callback 1 9 client (omega arith) callback_id

-- The state that an outcome carries.
abbrev state_after :
    {A E : Type 0} → Outcome (Client Pipe ℕ ℕ ℕ × A) (Client Pipe ℕ ℕ ℕ × E) → Client Pipe ℕ ℕ ℕ
state_after (returns (s, a)) = s
state_after (fails (s, x)) = s
state_after panics = client

abbrev event : Message ServerObjectId ℕ
event = record { sender_id = callback_id; opcode = 0; args = Argument.uint 5 ∷ [] }

abbrev stale : Message ServerObjectId ℕ
stale = record event { sender_id = record callback_id { serial = 9 } }

send_event_run :
    send_event host event client
    ≡ returns
        (state_after (send_event host event client), (ObjectData.user 7, first, callback_id) ∷ [])
unfolding send_event lookup_object client_object find slot deref wl_callback_interface
    check_for_signature same_type get_type write_message attempt_write_message write_to_buffers
    get_writable_storage new_socket new_buffer write_args write_arg write_buf
send_event_run = refl

send_event-Sent_example :
    Sent host client event
      (state_after (send_event host event client))
      ((ObjectData.user 7, first, callback_id) ∷ [])
send_event-Sent_example = send_event-Sent host client event refl send_event_run

stale_run : send_event host stale client ≡ fails (client, invalid_id)
unfolding send_event lookup_object client_object find slot
stale_run = refl

send_event_refused_example : client ≡ client
send_event_refused_example = send_event_refused host client stale refl stale_run

post_display_error-Posted_example :
    (t : Client Pipe ℕ ℕ ℕ) × (post_display_error host invalid_method
        (unknown_opcode 3 wl_display)
        client
      ≡ returns (t, tt))
    × Posted host client client_display invalid_method (unknown_opcode 3 wl_display) t
post_display_error-Posted_example =
    post_display_error-Posted host client client_display invalid_method
      (unknown_opcode 3 wl_display)

small : measure kernel finite socket < 5
unfolding new_socket new_buffer get_contents finite
small = omega arith

next_request_ends_example : (r : _) × (next_request host 5 client ≡ some r)
next_request_ends_example = next_request_ends host law finite 5 client socket-Inv small

-- A request that gives the callback and creates the object 4, and one that gives an object that is not
-- there.
abbrev copy : Message ℕ ℕ
copy = record { sender_id = 3; opcode = 0; args = Argument.object 2 ∷ Argument.new_id 4 ∷ [] }

abbrev copy_unknown : Message ℕ ℕ
copy_unknown = record copy { args = Argument.object 9 ∷ Argument.new_id 4 ∷ [] }

abbrev copied : Request ℕ
copied = record {
  args =
      Argument.object callback_id
      ∷ Argument.new_id (record { id = 4; serial = 3; client_id = first; interface = wl_callback })
      ∷ [];
  created_id = some (record { id = 4; serial = 3; client_id = first; interface = wl_callback });
}

copy_run :
    process_request host copier copy client
    ≡ returns (state_after (process_request host copier copy client), some (copied, false))
unfolding process_request deref find slot same_interface_or_anonymous same_interface ptr_eq
    insert_at
copy_run = refl

process_request-Grown_example :
    Grown host client (state_after (process_request host copier copy client))
    × Delivered first copy.args copied
process_request-Grown_example = process_request-Grown host copier copy client copy_run

unknown_run :
    process_request host copier copy_unknown client
    ≡ returns (state_after (process_request host copier copy_unknown client), none)
unfolding process_request deref find slot post_display_error lookup_object client_object
    wl_display_interface check_for_signature same_type get_type same_interface_or_anonymous
    same_interface ptr_eq anonymous_interface
unknown_run = refl

process_request_refused_example :
    (state_after (process_request host copier copy_unknown client)).killed ≡ true
process_request_refused_example =
    process_request_refused host copier copy_unknown client unknown_run

unused : find client.map 4 ≡ none
unfolding find slot
unused = refl

abbrev registry : RegistryState ℕ
registry = record { globals = []; known_registries = []; last_serial = 0 }

sync-Answered_example :
    (t : Client Pipe ℕ ℕ ℕ) × (sync host 4 (registry, client) ≡ returns ((registry, t), tt))
    × Answered host client t 4
sync-Answered_example = sync-Answered host client 4 unused registry refl (omega arith) (omega arith)

handle_registry_request_panics_iff_example :
    (handle_registry_request host
        (λ h id v g. true)
        registry
        (bind_message host 2 0 none 1 4)
        client
      ≡ panics)
    ↔ (◌≡◌ {A = Option (List ℕ)} none none)
handle_registry_request_panics_iff_example =
    handle_registry_request_panics_iff host (λ h id v g. true) client client_display registry 2 0
      none 1 4

abbrev server : ServerState Pipe ℕ ℕ ℕ ℕ
server = record {
  clients = record { clients = some (record client { killed = true }) ∷ []; last_serial = 1 };
  registry = registry;
  pending_destructors = [];
}

server-IsBounded :
    (i : ℕ) (c : Client Pipe ℕ ℕ ℕ) → slot server.clients.clients i ≡ some c → IsBounded c.map
unfolding slot
server-IsBounded zero c h =
    let same : record client { killed = true } ≡ c = ground arith in
    subst (λ c. IsBounded c.map) same (record { client = omega arith; server = omega arith })
server-IsBounded (suc i) c h = absurd (ground arith)

abbrev orphan : PendingDestructor ℕ
orphan = (ObjectData.user 7, first, callback_id)

state_cleanup_iff_example :
    In orphan (state_cleanup host server).1
    ↔ (In orphan [] ⊎ Orphan host server.clients.clients orphan)
state_cleanup_iff_example = state_cleanup_iff host server orphan server-IsBounded

-- Callbacks that leave the state alone and give 9.
abbrev giving : Callbacks Pipe ℕ ℕ ℕ ℕ
giving = record {
  request = λ u id m s. (s, some 9);
  destroyed = λ u id o s. s;
  bind = λ b s. (s, 9);
  may_view = λ h id v g. true;
}

abbrev creating : Request ℕ
creating = record { args = Argument.new_id callback_id ∷ []; created_id = some callback_id }

abbrev copier_id : ServerObjectId
copier_id = record { id = 3; serial = 2; client_id = first; interface = generated 0 }

server_first : client_of host server first ≡ ok (record client { killed = true })
unfolding client_of get_client slot
server_first = refl

server_callback : find client.map 2 ≡ some callback
unfolding find slot
server_callback = refl

call_request-Stored_example :
    (t : ServerState Pipe ℕ ℕ ℕ ℕ) × (call_request host giving
        (ObjectData.user 8)
        first
        copier_id
        0
        creating
        false
        server
      ≡ some t)
    × Stored host first callback_id 9 server t
call_request-Stored_example =
    call_request-Stored host giving 8 9 first copier_id callback_id 0 creating server server
      (record client { killed = true }) callback refl refl server_first server_callback
