-- ===== src/Client/Request/Sent.antt =====
-- What a request puts on the socket, and that a refused one puts nothing there.
use mathlib.Core.Path.{subst}
use wayland_rs.Common.{
  ℕ, ◌≡◌, refl, sym, ap, ◌∙◌, Bool-cases, Result-cases, inl, inr, Bool, true, false, Option, some,
  List, map, get_elem?, if◌then◌else◌, ok, err, returns, fails, M, bind_outcome, ◌>>◌, unwrap,
  assert, fail, pure,
}
use wayland_rs.Common.Post.{Post, Post-bind, Post-unwrap, Post-assert}
use wayland_rs.Common.Word.{Endian}
use wayland_rs.Io.{IoResult}
use wayland_rs.Protocol.{Argument, Message, check_for_signature}
use wayland_rs.Protocol.Interfaces.{Interface, InterfaceRef, MessageDesc, deref}
use wayland_rs.Map.{Object, with_object}
use wayland_rs.Socket.{BufferedSocket, write_message}
use wayland_rs.Socket.System.{Kernel}
use wayland_rs.Client.State.{
  ObjectData, dumb, uninit, user, Data, ObjectId, InvalidId, invalid_id, WaylandError, io,
  ProtocolState, get_object, lookup, update_object, notify_destroyed,
}
use wayland_rs.Client.Request.{
  child_spec_of, create_child, fill_placeholders, resolve_args, destroy_sender, child_or_null,
  wrote, write_request, send_checked, send_request,
}
use wayland_rs.Client.Request.Quiet.{
  numbered, wire_arg, map-wire_arg, Any, Same, Quiet, child_spec-Quiet, create_child-Quiet,
  fill-Quiet, resolve-Quiet,
}

-- The message that a request writes when it returns the id `c`.
abbrev pub wired : {RawFd : Type 0} → Message ObjectId RawFd → ObjectId → Message ℕ RawFd
wired m c = record { sender_id = m.sender_id.id; opcode = m.opcode; args = map (wire_arg c) m.args }

-- What a write reports is kept as the last error.
abbrev pub Reported : IoResult (Unit {0}) → Option WaylandError → Type 0
Reported (ok x) last = Unit {0}
Reported (err x) last = last ≡ some (io x)

module _ {Sys Fd U : Type 0} where
  -- The operations behind the write keep the socket and the last error, and do not fail.
  module _ (P : BufferedSocket Sys Fd → Option WaylandError → Type 0)
      (F : ProtocolState Sys Fd U → InvalidId → Type 0) where
    abbrev Kept : M (ProtocolState Sys Fd U) InvalidId (Unit {0}) → Type 0
    Kept m =
        (s : ProtocolState Sys Fd U)
        → P s.socket s.last_error
        → Post (λ t _. P t.socket t.last_error) F (m s)

    update-Kept : (id : ℕ) (f : Data U → Data U) → Kept (update_object id f)
    unfolding update_object
    update-Kept id f s p =
        elim (Result-cases (with_object s.map id (λ o. (record o { user = f o.user }, tt))).1) [
          | inl (x, e) ↦ rw (e, update_object, Post) p
          | inr (x, e) ↦ rw (e, update_object, Post) tt
        ]

    notify-Kept : (d : ObjectData U) (o : ObjectId) → Kept (notify_destroyed d o)
    unfolding notify_destroyed
    notify-Kept dumb o s p = tt
    notify-Kept uninit o s p = p
    notify-Kept (user u) o s p = p

    destroy_sender-Kept :
        (desc : MessageDesc) (object : Object (Data U)) (o : ObjectId)
        → Kept (destroy_sender desc object o)
    unfolding destroy_sender
    destroy_sender-Kept desc object o s p = elim (Bool-cases desc.is_destructor) [
      | inl e ↦ rw e (
          Post-bind (λ t _. P t.socket t.last_error) (λ t _. P t.socket t.last_error) F
            (update_object o.id (λ d. record d { client_destroyed = true }) s) _
            (update-Kept _ _ s p) (λ _ t q. notify-Kept object.user.user_data o t q))
      | inr e ↦ rw e p
    ]

module _ (statics : ℕ → Interface) (e : Endian) {RawFd Fd : Type 0}
    (dup : RawFd → IoResult Fd) where
  module _ (k : Kernel Fd) {U : Type 0} where
    open k use {Sys}

    abbrev pub Sent :
        BufferedSocket Sys Fd → Message ObjectId RawFd → ProtocolState Sys Fd U → ObjectId → Type 0
    Sent b m t c =
        (t.socket ≡ (write_message e dup k (wired m c) b).0)
        × Reported (write_message e dup k (wired m c) b).1 t.last_error

    wrote-Reported :
        (s : ProtocolState Sys Fd U) (r : BufferedSocket Sys Fd × IoResult (Unit {0}))
        → ((wrote statics e dup k s r).socket ≡ r.0)
          × Reported r.1 (wrote statics e dup k s r).last_error
    unfolding wrote
    wrote-Reported s (socket, ok x) = (refl, tt)
    wrote-Reported s (socket, err x) = (refl, refl)

    module _ (b : BufferedSocket Sys Fd) (m : Message ObjectId RawFd) where
      write_request-Sent :
          (c : ObjectId) (args : List (Argument ℕ RawFd))
          → args ≡ map (wire_arg c) m.args
          → (s : ProtocolState Sys Fd U) → s.socket ≡ b
          → Post
              (λ t _. Sent b m t c)
              (Same b)
              (write_request statics e dup k
                (record { sender_id = m.sender_id.id; opcode = m.opcode; args = args })
                s)
      unfolding write_request
      write_request-Sent c args a s p =
          rw (a, sym p) (wrote-Reported s (write_message e dup k (wired m c) s.socket))

      -- The guard against a destroyed sender.
      alive-Post :
          (destroyed : Bool) (n : M (ProtocolState Sys Fd U) InvalidId ObjectId)
          → (s : ProtocolState Sys Fd U) → s.socket ≡ b
          → Post (Sent b m) (Same b) (n s)
          → Post (Sent b m) (Same b) ((if destroyed then fail invalid_id else n) s)
      alive-Post true n s p h = p
      alive-Post false n s p h = h

      send_checked-Sent :
          (d : Option U) (spec : Option (InterfaceRef × ℕ)) (object : Object (Data U))
          → (desc : MessageDesc) (s : ProtocolState Sys Fd U) → s.socket ≡ b
          → Post (Sent b m) (Same b) (send_checked statics e dup k m d spec object desc s)
      unfolding send_checked
      send_checked-Sent d spec object desc s p =
          quietly Any (child_spec_of statics desc object.version spec) _
            (child_spec-Quiet b statics desc object.version spec)
            (λ chosen _.
              quietly Any (create_child d chosen) _ (create_child-Quiet b d chosen) (λ child _.
                quietly _ (fill_placeholders child m.args) _ (fill-Quiet b child m.args) (λ args f.
                  quietly _ (resolve_args statics desc 0 desc.arg_interfaces args) _
                    (resolve-Quiet b statics desc 0 desc.arg_interfaces args)
                    (λ wire g.
                      ended (child_or_null child) wire
                        (g ∙ ap (map numbered) f ∙ map-wire_arg (child_or_null child) m.args)))))
            s p
        where
          quietly :
              {A : Type 0} (P : A → Type 0) (o : M (ProtocolState Sys Fd U) InvalidId A)
              (f : A → M (ProtocolState Sys Fd U) InvalidId ObjectId)
              → Quiet b P o
              → ((a : A)
                  → P a
                  → (t : ProtocolState Sys Fd U) → t.socket ≡ b
                  → Post (Sent b m) (Same b) (f a t))
              → (t : ProtocolState Sys Fd U) → t.socket ≡ b
              → Post (Sent b m) (Same b) (bind_outcome f (o t))
          quietly P o f q h t p =
              Post-bind (λ t a. (t.socket ≡ b) × P a) (Sent b m) (Same b) (o t) f (q t p)
                (λ a u r. h a r.1 u r.0)

          ended :
              (c : ObjectId) (wire : List (Argument ℕ RawFd))
              → wire ≡ map (wire_arg c) m.args
              → (t : ProtocolState Sys Fd U) → t.socket ≡ b
              → Post (Sent b m) (Same b) (
                  (do
                    write_request statics e dup k
                        (record { sender_id = m.sender_id.id; opcode = m.opcode; args = wire })
                    destroy_sender desc object m.sender_id
                    pure c)
                    t)
          ended c wire a t p =
              Post-bind (λ u _. Sent b m u c) (Sent b m) (Same b) _ _
                (write_request-Sent c wire a t p)
                (λ _ u q.
                  Post-bind (λ v _. Sent b m v c) (Sent b m) (Same b)
                    (destroy_sender desc object m.sender_id u) _
                    (destroy_sender-Kept
                      (λ socket last.
                        (socket ≡ (write_message e dup k (wired m c) b).0)
                        × Reported (write_message e dup k (wired m c) b).1 last)
                      (Same b) desc object m.sender_id u q)
                    (λ _ v r. r))

    module _ (m : Message ObjectId RawFd) (d : Option U) (spec : Option (InterfaceRef × ℕ))
        (s : ProtocolState Sys Fd U) where
      looked : Post (λ t _. t.socket ≡ s.socket) (Same s.socket) (lookup m.sender_id s)
      unfolding lookup
      looked = elim (Result-cases (get_object s m.sender_id)) [
        | inl (object, g) ↦ rw (g, lookup, Post) refl
        | inr (x, g) ↦ rw (g, lookup, Post) refl
      ]

      send_request-Post :
          Post (Sent s.socket m) (Same s.socket) (send_request statics e dup k m d spec s)
      unfolding send_request
      send_request-Post =
          Post-bind Kept_socket (Sent s.socket m) (Same s.socket) (lookup m.sender_id s) _ looked
            (λ object t p.
              Post-bind Kept_socket (Sent s.socket m) (Same s.socket) (unwrap (request_of object) t)
                _ (Post-unwrap Kept_socket (Same s.socket) (request_of object) t (λ _ _. p))
                (λ desc u q. alive-Post s.socket m object.user.client_destroyed _ u q (
                  Post-bind Kept_socket (Sent s.socket m) (Same s.socket)
                    (assert (check_for_signature desc.signature m.args) u) _
                    (Post-assert Kept_socket (Same s.socket) _ u (λ _. q))
                    (λ _ v r. send_checked-Sent s.socket m d spec object desc v r))))
        where
          Kept_socket : {A : Type 0} → ProtocolState Sys Fd U → A → Type 0
          Kept_socket t a = t.socket ≡ s.socket

          request_of : Object (Data U) → Option MessageDesc
          request_of object = get_elem? (deref statics object.interface).requests m.opcode

      -- A request that returns the id c has written exactly one message to the socket: with the
      -- opcode and the sender's number, and with the arguments in which c stands for the
      -- placeholder and every object id for its number. If that write failed, its error is the
      -- last error of the connection.
      pub send_request-Sent :
          {t : ProtocolState Sys Fd U} {c : ObjectId}
          → send_request statics e dup k m d spec s ≡ returns (t, c)
          → Sent s.socket m t c
      send_request-Sent {t} {c} h =
          subst (Post (Sent s.socket m) (Same s.socket)) h send_request-Post

      -- A request that is refused with InvalidId leaves the socket as it was: nothing is sent or
      -- queued.
      pub send_request_refused :
          {t : ProtocolState Sys Fd U} {x : InvalidId}
          → send_request statics e dup k m d spec s ≡ fails (t, x)
          → t.socket ≡ s.socket
      send_request_refused h = subst (Post (Sent s.socket m) (Same s.socket)) h send_request-Post
