-- ===== src/Server/Handlers/Sync.antt =====
-- The answer to a `sync` request.
use mathlib.Core.Path.{subst}
use wayland_rs.Common.{
  ℕ, ◌+◌, ◌%◌, ◌^◌, ◌<◌, ◌≡◌, refl, sym, ap, ◌∙◌, true, false, Bool-cases, inl, inr, none, some, [],
  ◌∷◌, arith, ltb, length, ◌≤◌, ◌==◌, if◌then◌else◌, returns,
}
use wayland_rs.Protocol.{Argument, ArgumentType, Message, check_for_signature, same_type, get_type}
use wayland_rs.Protocol.Interfaces.{
  MessageDesc, bytes_of, deref, wl_callback_interface, wl_callback,
}
use wayland_rs.Map.{ObjectMap, Object, find, remove, server_id_limit}
use wayland_rs.Map.Lookup.{insert_at-Inserted, find-remove, insert_at_succeeds, place_of, vector_of}
use wayland_rs.Server.{ServerObjectId}
use wayland_rs.Server.Client.{ServerData, Host, Client, next_client_serial}
use wayland_rs.Server.Sending.{write_or_kill, send_delete_id, finish_event, event_args}
use wayland_rs.Server.Sending.Accepted.{
  written, write_or_kill-map, client_object_found, send_event_accepted,
}
use wayland_rs.Server.Registry.{RegistryState}
use wayland_rs.Server.Handlers.{beside, unwrapped, synced, sync, dumb_object}
use wayland_rs.Client.State.{dumb}

eq_same : (n : ℕ) → n == n ≡ true
eq_same n = ground arith

if_same : {A : Type 0} (a b : A) (n : ℕ) → (if n == n then a else b) ≡ a
if_same a b n = rw (eq_same n) refl

abbrev done_desc : MessageDesc
done_desc = record {
  name = bytes_of "done";
  since = 1;
  is_destructor = true;
  signature = ArgumentType.uint ∷ [];
  child_interface = none;
  arg_interfaces = [];
}

module _ {D : Type 0} where
  -- An object that is inserted and removed twice leaves no trace.
  removed_twice :
      (m m' : ObjectMap D) (n : ℕ) (p : Object D)
      → ((j : ℕ) → find m' j ≡ (if n == j then some p else find m j))
      → find m n ≡ none
      → (j : ℕ) → find (remove (remove m' n) n) j ≡ find m j
  removed_twice m m' n p found free j =
      let outer = find-remove (remove m' n) n j in
      let inner = find-remove m' n j in
      let f = found j in
      elim (Bool-cases (n == j)) [
        | inl e ↦
            let same : n ≡ j = ground arith in
            rw outer (rw e (sym (subst (λ i. find m i ≡ none) same free)))
        | inr e ↦ rw (outer, e, inner, e, f, e) refl
      ]

module _ {Fd : Type 0} (host : Host ℕ Fd) where
  open host use {statics, endian, dup, kernel}
  open kernel use {Sys}

  -- The messages of the answer: `done` of the callback, and the end of its id.
  abbrev pub done : ℕ → Message ℕ ℕ
  done n = record { sender_id = n; opcode = 0; args = Argument.uint 0 ∷ [] }

  abbrev pub deleted : ℕ → Message ℕ ℕ
  deleted n = record { sender_id = 1; opcode = 1; args = Argument.uint n ∷ [] }

  module _ {U V : Type 0} where
    -- What a client has been sent and has kept when a `sync` with the id `n` has been answered.
    pub record Answered (c t : Client Sys Fd U V) (n : ℕ) : Type 0 where
      pub sent : t.socket ≡ (
          if ltb n server_id_limit
          then written host (deleted n) (written host (done n) c.socket)
          else written host (done n) c.socket)
      pub same : (j : ℕ) → find t.map j ≡ find c.map j

    -- The end of the callback's id, after the message `done`.
    deleted-Answered :
        (c w : Client Sys Fd U V) (o : ServerObjectId) (p : Object (ServerData U))
        → ((j : ℕ) → find w.map j ≡ (if o.id == j then some p else find c.map j))
        → find c.map o.id ≡ none
        → w.socket ≡ written host (done o.id) c.socket
        → Answered c (send_delete_id host o (record w { map = remove w.map o.id })) o.id
    unfolding send_delete_id
    deleted-Answered c w o p found free e = elim (Bool-cases (ltb o.id server_id_limit)) [
      | inl l ↦
          let told = write_or_kill-map host (deleted o.id) (record w { map = remove w.map o.id }) in
          record {
            sent = rw l (told.1 ∙ ap (written host (deleted o.id)) e);
            same = λ j. rw l (
                ap (λ m. find (remove m o.id) j) told.0
                ∙ removed_twice c.map w.map o.id p found free j);
          }
      | inr l ↦ record {
        sent = rw l e;
        same = λ j. rw l (removed_twice c.map w.map o.id p found free j);
      }
    ]

    module _ (c : Client Sys Fd U V) (n : ℕ) (free : find c.map n ≡ none) where
      abbrev serial : ℕ
      serial = (c.last_serial + 1) % 2 ^ 32

      abbrev callback : Object (ServerData U)
      callback = record {
        interface = wl_callback;
        version = 1;
        user = record { user_data = dumb; serial = serial };
      }

      abbrev o : ServerObjectId
      o = record { id = n; client_id = c.id; serial = serial; interface = wl_callback }

      -- A `sync` on a client that has not been killed, with an id that is not null, stands for no
      -- object and is at most the next one of its range, never panics. The client is sent `done`,
      -- and `delete_id` if the id is in its own range, and then every id finds what it found before.
      pub sync-Answered :
          {H : Type 0} (r : RegistryState H)
          → c.killed ≡ false
          → 0 < n
          → place_of n ≤ length (vector_of c.map n)
          → (t : Client Sys Fd U V) × (sync host n (r, c) ≡ returns ((r, t), tt)) × Answered c t n
      unfolding sync synced beside unwrapped dumb_object next_client_serial finish_event deref
          wl_callback_interface check_for_signature event_args same_type get_type
      sync-Answered r alive positive next =
          let (map, inserted) = insert_at_succeeds c.map n callback positive next free in
          let found = (insert_at-Inserted c.map map n callback inserted).found in
          let c' = record c { last_serial = serial; map = map } in
          let known =
            client_object_found host c' o callback
              (found n ∙ if_same (some callback) (find c.map n) n) (eq_same callback.user.serial) in
          let w = write_or_kill-map host (done n) c' in
          let accepted =
            send_event_accepted host c'
              (record { sender_id = o; opcode = 0; args = Argument.uint 0 ∷ [] }) callback done_desc
              (Argument.uint 0 ∷ []) alive known refl refl refl in
          (
            _,
            rw (inserted, synced) (rw accepted refl),
            deleted-Answered c (write_or_kill host (done n) c') o callback
                (λ j. ap (λ m. find m j) w.0 ∙ found j) free w.1,
          )
