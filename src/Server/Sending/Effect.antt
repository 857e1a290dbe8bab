-- ===== src/Server/Sending/Effect.antt =====
-- What an event that is accepted does to the client, described without the functions of `Sending`.
use wayland_rs.Common.{
  ℕ, ◌≡◌, refl, sym, ap, ◌∙◌, Bool, true, false, Bool-cases, inl, inr, List, [], ◌∷◌, ltb, ◌==◌,
  if◌then◌else◌, none, ok, err,
}
use wayland_rs.Io.{IoResult}
use wayland_rs.Protocol.{Argument, Message}
use wayland_rs.Protocol.Interfaces.{MessageDesc}
use wayland_rs.Map.{Object, ObjectMap, find, remove, server_id_limit}
use wayland_rs.Map.Lookup.{find-remove}
use wayland_rs.Socket.{BufferedSocket, write_message}
use wayland_rs.Server.{ClientId, ServerObjectId}
use wayland_rs.Server.Client.{ServerData, Host, Client, PendingDestructor, kill}
use wayland_rs.Server.Sending.{write_or_kill, sent_or_killed, send_delete_id, finish_event}
use wayland_rs.Server.Sending.Accepted.{if_true, written, write_or_kill-map}

abbrev pub is_failure : {A : Type 0} → IoResult A → Bool
is_failure (ok a) = false
is_failure (err x) = true

-- A property of both branches, each under what the test then is.
by_test :
    {A : Type 0} (P : A → Type 0) (b : Bool) (p q : A)
    → (b ≡ true → P p)
    → (b ≡ false → P q)
    → P (if b then p else q)
by_test P true p q f g = f refl
by_test P false p q f g = g refl

if_or :
    (a b k : Bool)
    → (if b then true else (if (if a then true else false) then true else k))
      ≡ (if (if a then true else b) then true else k)
if_or true true k = refl
if_or true false k = refl
if_or false true k = refl
if_or false false k = refl

-- An object that is removed twice.
find_removed_twice :
    {D : Type 0} (m n : ObjectMap D) (i j : ℕ)
    → n ≡ remove m i
    → find (remove n i) j ≡ (if i == j then none else find m j)
find_removed_twice m n i j e = elim (Bool-cases (i == j)) [
  | inl h ↦ find-remove n i j ∙ rw h refl
  | inr h ↦ find-remove n i j ∙ rw h (ap (λ x. find x j) e ∙ find-remove m i j ∙ rw h refl)
]

module _ {RawFd : Type 0} where
  -- wl_display.delete_id for an object.
  abbrev pub delete_id : ServerObjectId → Message ℕ RawFd
  delete_id o = record { sender_id = 1; opcode = 1; args = Argument.uint o.id ∷ [] }

  -- The messages of an event: its own, and delete_id if it destroys an object that the client created.
  abbrev pub messages_of : MessageDesc → ServerObjectId → Message ℕ RawFd → List (Message ℕ RawFd)
  messages_of desc o event =
      if desc.is_destructor
      then event ∷ (if ltb o.id server_id_limit then delete_id o ∷ [] else [])
      else event ∷ []

module _ {RawFd Fd : Type 0} (host : Host RawFd Fd) where
  open host use {endian, dup, kernel}
  open kernel use {Sys}

  -- A socket after some messages, each of which is written whether the one before failed or not.
  abbrev pub written_all : List (Message ℕ RawFd) → BufferedSocket Sys Fd → BufferedSocket Sys Fd
  written_all [] b = b
  written_all (m ∷ ms) b = written_all ms (written host m b)

  abbrev pub failed : Message ℕ RawFd → BufferedSocket Sys Fd → Bool
  failed m b = is_failure (write_message endian dup kernel m b).1

  abbrev pub any_failed : List (Message ℕ RawFd) → BufferedSocket Sys Fd → Bool
  any_failed [] b = false
  any_failed (m ∷ ms) b = if failed m b then true else any_failed ms (written host m b)

  module _ {U V : Type 0} where
    -- The messages are written one after the other, and a failure of any of them kills the client.
    record Told (ms : List (Message ℕ RawFd)) (c t : Client Sys Fd U V) : Type 0 where
      socket : t.socket ≡ written_all ms c.socket
      killed : t.killed ≡ (if any_failed ms c.socket then true else c.killed)
      same_id : t.id ≡ c.id
      same_serial : t.last_serial ≡ c.last_serial

    sent_or_killed-Told :
        (m : Message ℕ RawFd) (c : Client Sys Fd U V)
        → (r : BufferedSocket Sys Fd × IoResult (Unit {0}))
        → write_message endian dup kernel m c.socket ≡ r
        → Told (m ∷ []) c (sent_or_killed host c r)
    unfolding sent_or_killed kill
    sent_or_killed-Told m c (b, ok x) e = record {
      socket = ap (λ z. z.0) (sym e);
      killed =
          ap (λ z. if (if is_failure z.1 then true else false) then true else c.killed) (sym e);
      same_id = refl;
      same_serial = refl;
    }
    sent_or_killed-Told m c (b, err x) e = record {
      socket = ap (λ z. z.0) (sym e);
      killed =
          ap (λ z. if (if is_failure z.1 then true else false) then true else c.killed) (sym e);
      same_id = refl;
      same_serial = refl;
    }

    write_or_kill-Told :
        (m : Message ℕ RawFd) (c : Client Sys Fd U V) → Told (m ∷ []) c (write_or_kill host m c)
    unfolding write_or_kill
    write_or_kill-Told m c = sent_or_killed-Told m c _ refl

    cons-Told :
        (m : Message ℕ RawFd) (ms : List (Message ℕ RawFd)) (c d t : Client Sys Fd U V)
        → Told (m ∷ []) c d
        → Told ms d t
        → Told (m ∷ ms) c t
    cons-Told m ms c d t p q = record {
      socket = q.socket ∙ ap (written_all ms) p.socket;
      killed =
          q.killed
          ∙ ap (λ b. if any_failed ms b then true else d.killed) p.socket
          ∙ ap (λ k. if any_failed ms (written host m c.socket) then true else k) p.killed
          ∙ if_or (failed m c.socket) (any_failed ms (written host m c.socket)) c.killed;
      same_id = q.same_id ∙ p.same_id;
      same_serial = q.same_serial ∙ p.same_serial;
    }

    module _ (desc : MessageDesc) (object : Object (ServerData U)) (o : ServerObjectId)
        (event : Message ℕ RawFd) (c : Client Sys Fd U V) where
      -- The messages are written, a destructor takes its object and no other out of the map, and the
      -- destructor of the object's data is given to the caller.
      pub record Effect (t : Client Sys Fd U V) (pending : List (PendingDestructor U))
          : Type 0 where
        pub socket : t.socket ≡ written_all (messages_of desc o event) c.socket
        pub killed :
            t.killed ≡ (if any_failed (messages_of desc o event) c.socket then true else c.killed)
        pub same_id : t.id ≡ c.id
        pub same_serial : t.last_serial ≡ c.last_serial
        pub found :
            (j : ℕ)
            → find t.map j ≡ (
                if desc.is_destructor
                then (if o.id == j then none else find c.map j)
                else find c.map j)
        pub given :
            pending ≡ (if desc.is_destructor then (object.user.user_data, c.id, o) ∷ [] else [])

      destroyed-Effect :
          (t : Client Sys Fd U V) (i : ClientId)
          → i ≡ c.id
          → desc.is_destructor ≡ true
          → Told (messages_of desc o event) c t
          → ((j : ℕ) → find t.map j ≡ (if o.id == j then none else find c.map j))
          → Effect t ((object.user.user_data, i, o) ∷ [])
      destroyed-Effect t i e d told f = record {
        socket = told.socket;
        killed = told.killed;
        same_id = told.same_id;
        same_serial = told.same_serial;
        found = λ j. rw d (f j);
        given =
            ap (λ x. (object.user.user_data, x, o) ∷ []) e ∙ sym (if_true desc.is_destructor _ _ d);
      }

      plain-Effect :
          (t : Client Sys Fd U V)
          → desc.is_destructor ≡ false
          → Told (messages_of desc o event) c t
          → t.map ≡ c.map
          → Effect t []
      plain-Effect t d told f = record {
        socket = told.socket;
        killed = told.killed;
        same_id = told.same_id;
        same_serial = told.same_serial;
        found = λ j. rw d (ap (λ m. find m j) f);
        given = rw d refl;
      }

      -- The state after the event's own message, and after the removal of its object.
      abbrev sent_client : Client Sys Fd U V
      sent_client = write_or_kill host event c

      abbrev removed_client : Client Sys Fd U V
      removed_client = record sent_client { map = remove sent_client.map o.id }

      -- The state after delete_id, if it is sent.
      abbrev told_client : Bool → Client Sys Fd U V
      told_client b = if b then write_or_kill host (delete_id o) removed_client else removed_client

      told_client-Told :
          (b : Bool)
          → Told
              (if b then delete_id o ∷ [] else [])
              sent_client
              (record (told_client b) { map = remove (told_client b).map o.id })
      told_client-Told true =
          let w = write_or_kill-Told (delete_id o) removed_client in
          record {
            socket = w.socket;
            killed = w.killed;
            same_id = w.same_id;
            same_serial = w.same_serial;
          }
      told_client-Told false = record {
        socket = refl;
        killed = refl;
        same_id = refl;
        same_serial = refl;
      }

      told_client-map : (b : Bool) → (told_client b).map ≡ remove c.map o.id
      told_client-map true =
          (write_or_kill-map host (delete_id o) removed_client).0
          ∙ ap (λ m. remove m o.id) (write_or_kill-map host event c).0
      told_client-map false = ap (λ m. remove m o.id) (write_or_kill-map host event c).0

      destructor-Effect :
          desc.is_destructor ≡ true
          → Effect
              (send_delete_id host o removed_client)
              ((object.user.user_data, sent_client.id, o) ∷ [])
      unfolding send_delete_id
      destructor-Effect d =
          let b = ltb o.id server_id_limit in
          let first = write_or_kill-Told event c in
          destroyed-Effect (record (told_client b) { map = remove (told_client b).map o.id })
            sent_client.id first.same_id d
            (rw d (cons-Told event _ c sent_client _ first (told_client-Told b)))
            (λ j. find_removed_twice c.map (told_client b).map o.id j (told_client-map b))

      -- The end of an event, after its message.
      pub finish_event-Effect :
          let (t, pending) = finish_event host desc object o sent_client in Effect t pending
      unfolding finish_event
      finish_event-Effect =
          by_test (λ (t, pending). Effect t pending) desc.is_destructor _ _ destructor-Effect
            (λ d.
              plain-Effect sent_client d (rw d (write_or_kill-Told event c))
                (write_or_kill-map host event c).0)
