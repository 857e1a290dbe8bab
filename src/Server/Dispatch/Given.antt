-- ===== src/Server/Dispatch/Given.antt =====
-- What a request whose callback gives data for a new object leaves behind.
use wayland_rs.Common.{
  ℕ, ◌≡◌, ◌≢◌, zero, suc, refl, sym, ap, ◌∙◌, Bool-cases, true, false, inl, inr, Option, none, some,
  List, [], ◌∷◌, arith, ◌==◌, if◌then◌else◌, Result, ok, err, length, set, ltb,
}
use wayland_rs.Map.{Object, ObjectMap, find, slot, with_object}
use wayland_rs.Map.Store.{slot-set}
use wayland_rs.Map.Lookup.{answer, updated, with_object_lem}
use wayland_rs.Client.State.{ObjectData, invalid_id}
use wayland_rs.Server.{ClientId, ServerObjectId, client_id_eq, with_id, get_client}
use wayland_rs.Server.Client.{ServerData, Host, Client}
use wayland_rs.Server.Sending.Accepted.{if_true, if_false}
use wayland_rs.Server.Conversion.{Request}
use wayland_rs.Server.Sending.{client_peer}
use wayland_rs.Server.Display.{ServerState, put_client, client_of}
use wayland_rs.Server.Dispatch.{
  Callbacks, store_data, stored, give_data, settle_child, call_request,
}

slot_within :
    {A : Type 0} (store : List (Option A)) (i : ℕ) (a : A)
    → slot store i ≡ some a
    → ltb i (length store) ≡ true
unfolding slot
slot_within [] i a h = absurd (ground arith)
slot_within (x ∷ store) zero a h = ground arith
slot_within (x ∷ store) (suc i) a h = ground (arith, slot_within store i a h)

-- A place that holds something, after it has been set.
slot-set_here :
    {A : Type 0} (store : List (Option A)) (i : ℕ) (a b : A)
    → slot store i ≡ some a
    → slot (set store i (some b)) i ≡ some b
slot-set_here store i a b h = slot-set store i i (some b) ∙ ground (arith, slot_within store i a h)

slot-set_other :
    {A : Type 0} (store : List (Option A)) (i j : ℕ) (v : Option A)
    → j ≢ i
    → slot (set store i v) j ≡ slot store j
slot-set_other store i j v h = slot-set store i j v ∙ ground arith

module _ {Fd : Type 0} (host : Host ℕ Fd) where
  open host use {kernel}
  open kernel use {Sys}

  module _ {U V : Type 0} where
    with_id-ok :
        (id : ClientId) (o : Option (Client Sys Fd U V)) (c : Client Sys Fd U V)
        → with_id (client_peer host U V) id o ≡ ok c
        → (o ≡ some c) × (client_id_eq c.id id ≡ true)
    unfolding with_id
    with_id-ok id none c h = absurd (ground arith)
    with_id-ok id (some d) c h = elim (Bool-cases (client_id_eq d.id id)) [
      | inl e ↦
          let found : ok d ≡ ok c = sym (if_true (client_id_eq d.id id) _ _ e) ∙ h in
          let same : d ≡ c = ground arith in
          (ap some same, ap (λ x. client_id_eq x.id id) (sym same) ∙ e)
      | inr e ↦
          let found : err invalid_id ≡ ok c = sym (if_false (client_id_eq d.id id) _ _ e) ∙ h in
          absurd (ground arith)
    ]

    with_id-some :
        (id : ClientId) (c : Client Sys Fd U V)
        → client_id_eq c.id id ≡ true
        → with_id (client_peer host U V) id (some c) ≡ ok c
    unfolding with_id
    with_id-some id c e = if_true (client_id_eq c.id id) _ _ e

    module _ {H : Type 0} where
      -- A client that is put back at its place is found there, and no other place changes.
      client_of-put_client :
          (s : ServerState Sys Fd U V H) (id : ClientId) (c d : Client Sys Fd U V)
          → client_of host s id ≡ ok c
          → d.id ≡ c.id
          → client_of host (put_client s id.id d) id ≡ ok d
      unfolding client_of get_client
      client_of-put_client s id c d h e =
          let (held, named) = with_id-ok id (slot s.clients.clients id.id) c h in
          ap (with_id (client_peer host U V) id) (slot-set_here s.clients.clients id.id c d held)
          ∙ with_id-some id d (ap (λ x. client_id_eq x id) e ∙ named)

      client_of_others :
          (s : ServerState Sys Fd U V H) (i : ℕ) (d : Client Sys Fd U V) (id : ClientId)
          → id.id ≢ i
          → client_of host (put_client s i d) id ≡ client_of host s id
      unfolding client_of get_client
      client_of_others s i d id h =
          ap (with_id (client_peer host U V) id)
            (slot-set_other s.clients.clients i id.id (some d) h)

      -- `t` is `s`, but that the object `child` of the client `id` has the data `w`.
      pub record Stored (id : ClientId) (child : ServerObjectId) (w : U)
          (s t : ServerState Sys Fd U V H) : Type 0 where
        pub before : Client Sys Fd U V
        pub after : Client Sys Fd U V
        pub object : Object (ServerData U)
        pub was : client_of host s id ≡ ok before
        pub created : find before.map child.id ≡ some object
        pub is : client_of host t id ≡ ok after
        pub found :
            (j : ℕ)
            → find after.map j ≡ (
                if child.id == j
                then some
                    (record object { user = record object.user { user_data = ObjectData.user w } })
                else find before.map j)
        pub socket : after.socket ≡ before.socket
        pub killed : after.killed ≡ before.killed
        pub others : (d : ClientId) → d.id ≢ id.id → client_of host t d ≡ client_of host s d
        pub registry : t.registry ≡ s.registry
        pub pending : t.pending_destructors ≡ s.pending_destructors

      module _ (id : ClientId) (child : ServerObjectId) (w : U) (s : ServerState Sys Fd U V H)
          (c : Client Sys Fd U V) (is : client_of host s id ≡ ok c) (object : Object (ServerData U))
          (there : find c.map child.id ≡ some object) where
        stored-Stored :
            (m : ObjectMap (ServerData U)) (r : Result (Unit {0}) (Unit {0}))
            → r ≡ answer (store_data w) (find c.map child.id)
            → ((j : ℕ)
                → find m j ≡ (
                    if child.id == j
                    then updated (store_data w) (find c.map child.id)
                    else find c.map j))
            → (t : ServerState Sys Fd U V H) × (stored host s id.id c (m, r) ≡ some t)
              × Stored id child w s t
        unfolding stored
        stored-Stored m (ok x) e f = (
          put_client s id.id (record c { map = m }),
          refl,
          record {
            before = c;
            after = record c { map = m };
            object = object;
            was = is;
            created = there;
            is = client_of-put_client s id c (record c { map = m }) is refl;
            found = λ j.
                f j
                ∙ ap (λ o. if child.id == j then updated (store_data w) o else find c.map j) there;
            socket = refl;
            killed = refl;
            others = λ d h. client_of_others s id.id (record c { map = m }) d h;
            registry = refl;
            pending = refl;
          },
        )
        stored-Stored m (err x) e f =
            let missing : err x ≡ ok tt = e ∙ ap (answer (store_data w)) there in
            absurd (ground arith)

        give_data-Stored :
            (t : ServerState Sys Fd U V H) × (give_data host id child w s ≡ some t)
            × Stored id child w s t
        unfolding give_data
        give_data-Stored =
            let f : Object (ServerData U) → Object (ServerData U) × Unit {0} = store_data w in
            let at = with_object_lem c.map child.id child.id f in
            let (t, e, q) =
              stored-Stored (with_object c.map child.id f).0 (with_object c.map child.id f).1 at.0
                (λ j. (with_object_lem c.map child.id j f).1) in
            (t, rw (is, give_data) e, q)

      -- A request on an object with data of the program, which is no destructor, has created the
      -- object `child`, and its callback gives the data `w` for it and leaves a state in which the
      -- client is there and finds `child`. Then the server does not panic, and `child` has the data
      -- `w` and is otherwise as the callback left it. Every other id of that client's map, and every
      -- id of a client at another place, finds what it found after the callback; the socket of the
      -- client and whether it is killed, the registry, and the destructors that wait are those of the
      -- state that the callback left.
      pub call_request-Stored :
          (calls : Callbacks Sys Fd U V H) (u w : U) (id : ClientId) (o child : ServerObjectId)
          → (opcode : ℕ) (r : Request Fd) (s left : ServerState Sys Fd U V H)
          → (c : Client Sys Fd U V) (object : Object (ServerData U)) → r.created_id ≡ some child
          → calls.request u id (record { sender_id = o; opcode = opcode; args = r.args }) s
            ≡ (left, some w)
          → client_of host left id ≡ ok c
          → find c.map child.id ≡ some object
          → (t : ServerState Sys Fd U V H) × (call_request host calls
                (ObjectData.user u)
                id
                o
                opcode
                r
                false
                s
              ≡ some t)
            × Stored id child w left t
      unfolding call_request settle_child
      call_request-Stored calls u w id o child opcode r s left c object made h is there =
          let (t, e, q) = give_data-Stored id child w left c is object there in
          (
            t,
            ap (λ z. settle_child host id r.created_id z.1 z.0) h
                ∙ ap (λ k. settle_child host id k (some w) left) made
                ∙ e,
            q,
          )
