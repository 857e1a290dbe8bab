-- ===== src/Server/Sending/Sent.antt =====
-- What an event puts on a client's socket, and that a refused one leaves the client alone.
use mathlib.Core.Path.{subst, subst⁻¹}
use wayland_rs.Common.{
  ℕ, ◌+◌, ◌≡◌, refl, ap, Bool, true, false, Bool-cases, Result-cases, ok, inl, inr, Option, some,
  List, [], ◌∷◌, map, ◌==◌, get_elem?, if◌then◌else◌, returns, fails, M, ◌>>=◌, pure, Outcome,
  unwrap, assert,
}
use wayland_rs.Common.Post.{Post, Post-bind, Post-unwrap, Post-assert}
use wayland_rs.Protocol.{Argument, Message, check_for_signature}
use wayland_rs.Protocol.Interfaces.{InterfaceRef, MessageDesc, deref}
use wayland_rs.Map.{Object}
use wayland_rs.Client.State.{InvalidId}
use wayland_rs.Client.Request.{is_new_id, allows_null, next_interface}
use wayland_rs.Server.{ServerObjectId, client_id_eq}
use wayland_rs.Server.Client.{
  ServerData, Host, Client, PendingDestructor, client_object, lookup_object,
}
use wayland_rs.Server.Sending.Effect.{Effect, finish_event-Effect}
use wayland_rs.Server.Sending.{
  write_or_kill, check_new_id, check_event_object, event_args, finish_event, send_event,
}

-- An argument as an event sends it: ids as numbers, a new id as an object.
abbrev pub sent_arg : {RawFd : Type 0} → Argument ServerObjectId RawFd → Argument ℕ RawFd
sent_arg (Argument.int x) = Argument.int x
sent_arg (Argument.uint x) = Argument.uint x
sent_arg (Argument.fixed x) = Argument.fixed x
sent_arg (Argument.str x) = Argument.str x
sent_arg (Argument.object o) = Argument.object o.id
sent_arg (Argument.new_id o) = Argument.object o.id
sent_arg (Argument.array x) = Argument.array x
sent_arg (Argument.fd x) = Argument.fd x

abbrev pub sent_message : {RawFd : Type 0} → Message ServerObjectId RawFd → Message ℕ RawFd
sent_message m = record {
  sender_id = m.sender_id.id;
  opcode = m.opcode;
  args = map sent_arg m.args;
}

-- Operations that leave the state as it is, with a property of their result.
abbrev pub Any : {A : Type 0} → A → Type 0
Any a = Unit {0}

module _ {S : Type 0} (c : S) where
  abbrev Left : S → InvalidId → Type 0
  Left t x = t ≡ c

  abbrev pub Leaves : {A : Type 0} → (A → Type 0) → M S InvalidId A → Type 0
  Leaves Q m = Post (λ t a. (t ≡ c) × Q a) Left (m c)

  bind-Post :
      {A B : Type 0} (P : A → Type 0) (Q : S → B → Type 0) (m : M S InvalidId A)
      (f : A → M S InvalidId B)
      → Leaves P m
      → ((a : A) → P a → Post Q Left (f a c))
      → Post Q Left ((m >>= f) c)
  bind-Post P Q m f h k =
      Post-bind (λ t a. (t ≡ c) × P a) Q Left (m c) f h
        (λ a t q. subst⁻¹ (λ t. Post Q Left (f a t)) q.0 (k a q.1))

  -- The guard against a killed client.
  alive-Post :
      {A : Type 0} (Q : S → A → Type 0) {dead : Bool} (o p : Outcome (S × A) (S × InvalidId))
      → dead ≡ false
      → Post Q Left o
      → Post Q Left (if dead then p else o)
  alive-Post Q o p e h = subst⁻¹ (λ b. Post Q Left (if b then p else o)) e h

  pub unwrap-Leaves : {A : Type 0} (o : Option A) → Leaves (λ a. o ≡ some a) (unwrap o)
  unwrap-Leaves o = Post-unwrap (λ t a. (t ≡ c) × (o ≡ some a)) Left o c (λ a e. (refl, e))

  assert-true-Leaves : (b : Bool) → Leaves (λ _. b ≡ true) (assert b)
  assert-true-Leaves b = Post-assert (λ t a. (t ≡ c) × (b ≡ true)) Left b c (λ e. (refl, e))

  pub assert-Leaves : (b : Bool) → Leaves Any (assert b)
  assert-Leaves b = Post-assert (λ t a. (t ≡ c) × Any a) Left b c (λ e. (refl, tt))

module _ {RawFd Fd : Type 0} (host : Host RawFd Fd) where
  open host use {statics, kernel}
  open kernel use {Sys}

  module _ {U V : Type 0} (c : Client Sys Fd U V) where
    lookup-Leaves :
        (o : ServerObjectId) → Leaves c (λ object. client_object c o ≡ ok object) (lookup_object o)
    unfolding lookup_object
    lookup-Leaves o = elim (Result-cases (client_object c o)) [
      | inl (object, e) ↦ rw (e, lookup_object, Post) (refl, e)
      | inr (x, e) ↦ rw (e, lookup_object, Post) refl
    ]

    -- A chain whose first step leaves the client alone.
    then_Leaves :
        {A B : Type 0} (P : A → Type 0) (m : M (Client Sys Fd U V) InvalidId A)
        → (f : A → M (Client Sys Fd U V) InvalidId B) (Q : B → Type 0) → Leaves c P m
        → ((a : A) → P a → Leaves c Q (f a))
        → Leaves c Q (m >>= f)
    then_Leaves P m f Q = bind-Post c P (λ t b. (t ≡ c) × Q b) m f

    new_id-Leaves :
        (desc : MessageDesc) (i : ℕ) (o : ServerObjectId)
        → Leaves c Any (check_new_id host desc i o)
    unfolding check_new_id
    new_id-Leaves desc i o = elim (Bool-cases (o.id == 0)) [
      | inl e ↦ rw e (
          then_Leaves _ (unwrap (get_elem? desc.signature i)) _ Any (unwrap-Leaves c _)
            (λ t _. assert-Leaves c (is_new_id t)))
      | inr e ↦ rw e (
          then_Leaves Any (assert (client_id_eq o.client_id c.id)) _ Any (assert-Leaves c _) (λ _ _.
            then_Leaves _ (lookup_object o) _ Any (lookup-Leaves o) (λ object _.
              then_Leaves _ (unwrap desc.child_interface) _ Any (unwrap-Leaves c _)
                (λ child _. assert-Leaves c _))))
    ]

    object-Leaves :
        (desc : MessageDesc) (i : ℕ) (expected : InterfaceRef) (o : ServerObjectId)
        → Leaves c Any (check_event_object host desc i expected o)
    unfolding check_event_object
    object-Leaves desc i expected o = elim (Bool-cases (o.id == 0)) [
      | inl e ↦ rw e (
          then_Leaves _ (unwrap (allows_null (get_elem? desc.signature i))) _ Any
            (unwrap-Leaves c _) (λ allowed _. assert-Leaves c allowed))
      | inr e ↦ rw e (
          then_Leaves Any (assert (client_id_eq o.client_id c.id)) _ Any (assert-Leaves c _) (λ _ _.
            then_Leaves _ (lookup_object o) _ Any (lookup-Leaves o)
              (λ object _. assert-Leaves c _)))
    ]

    -- The tail of a list whose first argument is `b` on the wire.
    cons-Leaves :
        (b : Argument ℕ RawFd) (args : List (Argument ServerObjectId RawFd))
        → (m : M (Client Sys Fd U V) InvalidId (List (Argument ℕ RawFd)))
        → Leaves c (λ xs. xs ≡ map sent_arg args) m
        → Leaves c (λ xs. xs ≡ b ∷ map sent_arg args) (m >>= λ rest. pure (b ∷ rest))
    cons-Leaves b args m h = then_Leaves _ m _ _ h (λ xs e. (refl, ap (λ l. b ∷ l) e))

    args-Leaves :
        (desc : MessageDesc) (i : ℕ) (interfaces : List InterfaceRef)
        → (args : List (Argument ServerObjectId RawFd))
        → Leaves c (λ xs. xs ≡ map sent_arg args) (event_args host desc i interfaces args)
    unfolding event_args
    args-Leaves desc i interfaces [] = (refl, refl)
    args-Leaves desc i interfaces (Argument.new_id o ∷ args) =
        then_Leaves Any (check_new_id host desc i o) _ _ (new_id-Leaves desc i o) (λ _ _.
          cons-Leaves (Argument.object o.id) args (event_args host desc (i + 1) interfaces args)
            (args-Leaves desc (i + 1) interfaces args))
    args-Leaves desc i interfaces (Argument.object o ∷ args) =
        then_Leaves _ (unwrap (next_interface interfaces)) _ _ (unwrap-Leaves c _)
          (λ (expected, others) _.
            then_Leaves Any (check_event_object host desc i expected o) _ _
              (object-Leaves desc i expected o)
              (λ _ _.
                cons-Leaves (Argument.object o.id) args (event_args host desc (i + 1) others args)
                  (args-Leaves desc (i + 1) others args)))
    args-Leaves desc i interfaces (Argument.int x ∷ args) =
        cons-Leaves (Argument.int x) args (event_args host desc (i + 1) interfaces args)
          (args-Leaves desc (i + 1) interfaces args)
    args-Leaves desc i interfaces (Argument.uint x ∷ args) =
        cons-Leaves (Argument.uint x) args (event_args host desc (i + 1) interfaces args)
          (args-Leaves desc (i + 1) interfaces args)
    args-Leaves desc i interfaces (Argument.fixed x ∷ args) =
        cons-Leaves (Argument.fixed x) args (event_args host desc (i + 1) interfaces args)
          (args-Leaves desc (i + 1) interfaces args)
    args-Leaves desc i interfaces (Argument.str x ∷ args) =
        cons-Leaves (Argument.str x) args (event_args host desc (i + 1) interfaces args)
          (args-Leaves desc (i + 1) interfaces args)
    args-Leaves desc i interfaces (Argument.array x ∷ args) =
        cons-Leaves (Argument.array x) args (event_args host desc (i + 1) interfaces args)
          (args-Leaves desc (i + 1) interfaces args)
    args-Leaves desc i interfaces (Argument.fd x ∷ args) =
        cons-Leaves (Argument.fd x) args (event_args host desc (i + 1) interfaces args)
          (args-Leaves desc (i + 1) interfaces args)

    -- An event that is accepted: its object and description are known, and it has its effect.
    pub record Sent (m : Message ServerObjectId RawFd) (t : Client Sys Fd U V)
        (pending : List (PendingDestructor U)) : Type 0 where
      pub object : Object (ServerData U)
      pub desc : MessageDesc
      pub known : client_object c m.sender_id ≡ ok object
      pub described : get_elem? (deref statics object.interface).events m.opcode ≡ some desc
      pub fits : check_for_signature desc.signature m.args ≡ true
      pub effect : Effect host desc object m.sender_id (sent_message m) c t pending

    abbrev event_of : ℕ → Object (ServerData U) → Option MessageDesc
    event_of opcode object = get_elem? (deref statics object.interface).events opcode

    send_event-Post :
        (m : Message ServerObjectId RawFd)
        → c.killed ≡ false
        → Post (Sent m) (Left c) (send_event host m c)
    unfolding send_event
    send_event-Post m alive = alive-Post c (Sent m) _ _ alive (
        bind-Post c _ (Sent m) (lookup_object m.sender_id) _ (lookup-Leaves m.sender_id)
          (λ object known.
            bind-Post c _ (Sent m) (unwrap (event_of m.opcode object)) _ (unwrap-Leaves c _)
              (λ desc described.
                bind-Post c _ (Sent m) (assert (check_for_signature desc.signature m.args)) _
                  (assert-true-Leaves c _)
                  (λ _ fits.
                    bind-Post c _ (Sent m) (event_args host desc 0 desc.arg_interfaces m.args)
                      (λ args s. returns (
                        finish_event host desc object m.sender_id (
                          write_or_kill host
                            (record { sender_id = m.sender_id.id; opcode = m.opcode; args = args })
                            s)))
                      (args-Leaves desc 0 desc.arg_interfaces m.args)
                      (λ args e. record {
                        object = object;
                        desc = desc;
                        known = known;
                        described = described;
                        fits = fits;
                        effect =
                            rw e
                              (finish_event-Effect host desc object m.sender_id (sent_message m) c);
                      })))))

    module _ (m : Message ServerObjectId RawFd) (alive : c.killed ≡ false)
        {t : Client Sys Fd U V} where
      -- An event that a client that has not been killed is sent, and that is accepted, has a sender
      -- in the client's map and a description that its arguments fit. Its message is written to the
      -- socket, with every object and every new id as the number of its object; after a destructor
      -- of an object that the client created, wl_display.delete_id with the object's id is written
      -- too. The client is killed afterwards exactly if one of these writes failed. A destructor
      -- takes its object out of the map and gives the caller the object's data to destroy, any
      -- other event gives none, and every other id of the map finds what it found.
      pub send_event-Sent :
          {pending : List (PendingDestructor U)}
          → send_event host m c ≡ returns (t, pending)
          → Sent m t pending
      send_event-Sent h = subst (Post (Sent m) (Left c)) h (send_event-Post m alive)

      -- An event that is refused with InvalidId to a client that has not been killed leaves the
      -- whole client as it was.
      pub send_event_refused : {x : InvalidId} → send_event host m c ≡ fails (t, x) → t ≡ c
      send_event_refused h = subst (Post (Sent m) (Left c)) h (send_event-Post m alive)
