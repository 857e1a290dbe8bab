-- ===== src/Server/Sending/Accepted.antt =====
-- When an event is accepted, and what its messages leave of the client.
use wayland_rs.Common.{
  ℕ, ◌≡◌, refl, ◌∙◌, Bool, true, false, some, List, [], arith, ◌==◌, get_elem?, if◌then◌else◌, ok,
  err, returns,
}
use wayland_rs.Io.{IoResult}
use wayland_rs.Protocol.{Argument, Message, check_for_signature}
use wayland_rs.Protocol.Interfaces.{MessageDesc, deref}
use wayland_rs.Map.{Object, find}
use wayland_rs.Socket.{BufferedSocket, write_message}
use wayland_rs.Server.{ServerObjectId}
use wayland_rs.Server.Client.{
  ServerData, Host, Client, client_object, lookup_object, with_serial, kill,
}
use wayland_rs.Server.Sending.{write_or_kill, sent_or_killed, finish_event, event_args, send_event}

pub if_true : {A : Type 0} (b : Bool) (p q : A) → b ≡ true → (if b then p else q) ≡ p
if_true true p q e = refl
if_true false p q e = absurd (ground arith)

pub if_false : {A : Type 0} (b : Bool) (p q : A) → b ≡ false → (if b then p else q) ≡ q
if_false true p q e = absurd (ground arith)
if_false false p q e = refl

module _ {RawFd Fd : Type 0} (host : Host RawFd Fd) where
  open host use {statics, endian, dup, kernel}
  open kernel use {Sys}

  abbrev pub written : Message ℕ RawFd → BufferedSocket Sys Fd → BufferedSocket Sys Fd
  written m b = (write_message endian dup kernel m b).0

  module _ {U V : Type 0} where
    sent_or_killed-map :
        (c : Client Sys Fd U V) (r : BufferedSocket Sys Fd × IoResult (Unit {0}))
        → ((sent_or_killed host c r).map ≡ c.map) × ((sent_or_killed host c r).socket ≡ r.0)
    unfolding sent_or_killed kill
    sent_or_killed-map c (b, ok x) = (refl, refl)
    sent_or_killed-map c (b, err x) = (refl, refl)

    -- Whether the write fails or not, the map stays and the socket is that after the write.
    pub write_or_kill-map :
        (m : Message ℕ RawFd) (c : Client Sys Fd U V)
        → ((write_or_kill host m c).map ≡ c.map)
          × ((write_or_kill host m c).socket ≡ written m c.socket)
    unfolding write_or_kill
    write_or_kill-map m c = sent_or_killed-map c _

    module _ (c : Client Sys Fd U V) where
      pub client_object_found :
          (o : ServerObjectId) (object : Object (ServerData U))
          → find c.map o.id ≡ some object
          → object.user.serial == o.serial ≡ true
          → client_object c o ≡ ok object
      unfolding client_object with_serial
      client_object_found o object f e = rw (f, client_object, with_serial, e) refl

      -- An event to a killed client is dropped.
      pub send_event_killed :
          (m : Message ServerObjectId RawFd)
          → c.killed ≡ true
          → send_event host m c ≡ returns (c, [])
      unfolding send_event
      send_event_killed m dead = if_true c.killed _ _ dead

      -- An event that passes every check is written and finished.
      pub send_event_accepted :
          (m : Message ServerObjectId RawFd) (object : Object (ServerData U)) (desc : MessageDesc)
          → (args : List (Argument ℕ RawFd)) → c.killed ≡ false
          → client_object c m.sender_id ≡ ok object
          → get_elem? (deref statics object.interface).events m.opcode ≡ some desc
          → check_for_signature desc.signature m.args ≡ true
          → event_args host desc 0 desc.arg_interfaces m.args c ≡ returns (c, args)
          → send_event host m c
            ≡ returns (
                finish_event host desc object m.sender_id (
                  write_or_kill host
                    (record { sender_id = m.sender_id.id; opcode = m.opcode; args = args })
                    c))
      unfolding send_event lookup_object
      send_event_accepted m object desc args alive known described fits e =
          if_false c.killed _ _ alive
          ∙ rw (known, lookup_object) (rw described (rw fits (rw e refl)))
