-- ===== src/Server/Sending/Posted.antt =====
-- The end of a client by an error of the backend.
use wayland_rs.Common.{
  ℕ, ◌≡◌, refl, sym, ap, ◌∙◌, Bool, true, false, Bool-cases, inl, inr, none, some, List, [], ◌∷◌,
  ◌++◌, arith, ◌||◌, if◌then◌else◌, ok, returns,
}
use wayland_rs.Protocol.{
  Argument, ArgumentType, non_null, Message, check_for_signature, same_type, get_type,
}
use wayland_rs.Protocol.Interfaces.{
  MessageDesc, bytes_of, anonymous, deref, wl_display_interface, same_interface_or_anonymous,
  same_interface, ptr_eq,
}
use wayland_rs.Map.{find, new_map, insert_at}
use wayland_rs.Socket.{flush}
use wayland_rs.Server.{ClientId, client_id_eq}
use wayland_rs.Server.Client.{
  DisconnectReason, protocol_error, ServerText, DisplayError, display_error_code, Host, Client,
  server_display_object, client_object, lookup_object, kill,
}
use wayland_rs.Server.Sending.{
  write_or_kill, first_client, new_client, client_flush, check_event_object, event_args,
  finish_event, send_event, display_of, end_with, post_error, post_display_error,
}
use wayland_rs.Server.Sending.Accepted.{
  if_true, if_false, written, write_or_kill-map, client_object_found, send_event_accepted,
  send_event_killed,
}

abbrev error_desc : MessageDesc
error_desc = record {
  name = bytes_of "error";
  since = 1;
  is_destructor = false;
  signature = ArgumentType.object non_null ∷ ArgumentType.uint ∷ ArgumentType.str non_null ∷ [];
  child_interface = none;
  arg_interfaces = anonymous ∷ [];
}

client_id_eq_refl : (c : ClientId) → client_id_eq c c ≡ true
unfolding client_id_eq
client_id_eq_refl c = ground arith

or_true : (b : Bool) → b || true ≡ true
or_true true = refl
or_true false = refl

module _ {RawFd Fd : Type 0} (host : Host RawFd Fd) where
  open host use {statics, kernel, render}
  open kernel use {Sys}

  -- The `error` event of wl_display on wl_display.
  abbrev pub error_event : DisplayError → ServerText → Message ℕ RawFd
  error_event code text = record {
    sender_id = 1;
    opcode = 0;
    args =
        Argument.object 1
        ∷ Argument.uint (display_error_code code)
        ∷ Argument.str (some (render text))
        ∷ [];
  }

  module _ {U V : Type 0} where
    -- The object with the id 1 is the wl_display that a client is created with.
    abbrev pub HasDisplay : Client Sys Fd U V → Type 0
    HasDisplay c = find c.map 1 ≡ some server_display_object

    module _ (c : Client Sys Fd U V) (display : HasDisplay c) where
      known : client_object c (display_of host c) ≡ ok server_display_object
      unfolding server_display_object
      known = client_object_found host c (display_of host c) server_display_object display refl

      named :
          same_interface_or_anonymous statics anonymous (server_display_object {U = U}).interface
          ≡ true
      unfolding same_interface_or_anonymous server_display_object same_interface ptr_eq
      named = or_true _

      arguments :
          (x : ℕ) (message : List ℕ)
          → event_args host error_desc 0
              (anonymous ∷ [])
              (Argument.object (display_of host c)
                ∷ Argument.uint x
                ∷ Argument.str (some message)
                ∷ [])
              c
            ≡ returns (c, Argument.object 1 ∷ Argument.uint x ∷ Argument.str (some message) ∷ [])
      unfolding event_args check_event_object lookup_object
      arguments x message = rw (client_id_eq_refl c.id, known, lookup_object, named) refl

      -- What the client is after the event `error`: the message is on its way, unless the client had
      -- been killed before.
      posted : Message ℕ RawFd → Client Sys Fd U V
      posted m = if c.killed then c else write_or_kill host m c

      posted-socket :
          (m : Message ℕ RawFd)
          → (posted m).socket ≡ (if c.killed then c.socket else written host m c.socket)
      unfolding posted
      posted-socket m = branch c.killed
        where
          branch :
              (b : Bool)
              → (if b then c else write_or_kill host m c).socket
                ≡ (if b then c.socket else written host m c.socket)
          branch true = refl
          branch false = (write_or_kill-map host m c).1

      error_sent :
          (x : ℕ) (message : List ℕ)
          → send_event host
              (record {
                sender_id = display_of host c;
                opcode = 0;
                args =
                    Argument.object (display_of host c)
                    ∷ Argument.uint x
                    ∷ Argument.str (some message)
                    ∷ [];
              })
              c
            ≡ returns (
              posted (record {
                sender_id = 1;
                opcode = 0;
                args = Argument.object 1 ∷ Argument.uint x ∷ Argument.str (some message) ∷ [];
              }),
              [],
            )
      unfolding posted deref wl_display_interface check_for_signature same_type get_type
          finish_event server_display_object
      error_sent x message = elim (Bool-cases c.killed) [
        | inl e ↦
            send_event_killed host c _ e ∙ ap (λ t. returns (t, [])) (sym (if_true c.killed _ _ e))
        | inr e ↦
            send_event_accepted host c _ server_display_object error_desc _ e known refl refl
              (arguments x message)
            ∙ ap (λ t. returns (t, [])) (sym (if_false c.killed _ _ e))
      ]

      -- How a client ends by an error of the backend.
      pub record Posted (code : DisplayError) (text : ServerText) (t : Client Sys Fd U V)
          : Type 0 where
        pub dead : t.killed ≡ true
        pub told :
            t.socket
            ≡ (flush kernel
                (if c.killed then c.socket else written host (error_event code text) c.socket)).0
        pub before : List DisconnectReason
        pub last :
            t.disconnects
            ≡ before
              ++ protocol_error (record {
                code = display_error_code code;
                object_id = 1;
                object_interface = bytes_of "wl_display";
                message = render text;
              })
                ∷ []

      -- An error of the backend on a client whose id 1 is its wl_display is always posted: the
      -- `error` event is written, unless the client had been killed before, and the socket is
      -- flushed; the client is then killed, and the reason that it gives last is that error.
      pub post_display_error-Posted :
          (code : DisplayError) (text : ServerText)
          → (t : Client Sys Fd U V) × (post_display_error host code text c ≡ returns (t, tt))
            × Posted code text t
      unfolding post_display_error post_error end_with client_flush kill deref wl_display_interface
      post_display_error-Posted code text = (
        _,
        ap (end_with host _) (error_sent (display_error_code code) (render text)),
        record {
          dead = refl;
          told = ap (λ b. (flush kernel b).0) (posted-socket (error_event code text));
          before = _;
          last = refl;
        },
      )

  module _ {U V : Type 0} where
    -- A client is created, without a panic, with its wl_display at the id 1.
    pub new_client-HasDisplay :
        (stream : Sys) (id : ClientId) (v : V)
        → (c : Client Sys Fd U V) × (new_client host stream id v ≡ some c) × HasDisplay c
    unfolding new_client first_client insert_at find new_map
    new_client-HasDisplay stream id v = (_, refl, refl)
