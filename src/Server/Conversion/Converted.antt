-- ===== src/Server/Conversion/Converted.antt =====
-- What a handler is given of a request, and that the client of a refused request is killed.
use mathlib.Core.Path.{subst}
use wayland_rs.Common.{
  arith, ℕ, ◌+◌, ◌≡◌, ◌∙◌, refl, ap, Bool, true, Bool-cases, Option-cases, inl, inr, Option, none,
  some, List, [], ◌∷◌, ◌==◌, get_elem?, Result, ok, err, Outcome, returns, fails, panics, M, ◌>>=◌,
  pure, unwrap,
}
use wayland_rs.Common.Post.{Post, Post-bind, Post-unwrap}
use wayland_rs.Protocol.{Argument, Message}
use wayland_rs.Protocol.Interfaces.{InterfaceRef, MessageDesc, same_interface_or_anonymous}
use wayland_rs.Map.{ObjectMap, Object, find, insert_at}
use wayland_rs.Client.State.{InvalidId}
use wayland_rs.Client.Request.{allows_null}
use wayland_rs.Server.{ServerObjectId}
use wayland_rs.Server.Client.{
  ServerData, ServerText, DisplayError, PostedError, Host, Client, PendingDestructor,
  next_client_serial, kill,
}
use wayland_rs.Server.Sending.{post_display_error, post_error, end_with}
use wayland_rs.Server.Conversion.{
  Request, request_arg, refused, refuse, known_argument, check_argument, request_object,
  created_object, create_requested, convert_request, processed, described, process_request,
  first_of, rest_of,
}
use wayland_rs.Server.Conversion.Delivered.{
  wire_of, OwnedArg, created_by, last_created, Delivered, or_later-none, or_later-some,
  insert_at-kept,
}

module _ {Fd : Type 0} (host : Host ℕ Fd) where
  open host use {statics, kernel}
  open kernel use {Sys}

  module _ {U V : Type 0} where
    -- What the conversion of a request may do to its client: it adds objects.
    pub record Grown (c t : Client Sys Fd U V) : Type 0 where
      pub same_socket : t.socket ≡ c.socket
      pub same_id : t.id ≡ c.id
      pub same_killed : t.killed ≡ c.killed
      pub kept : (j : ℕ) (o : Object (ServerData U)) → find c.map j ≡ some o → find t.map j ≡ some o

    abbrev pub Killed : Client Sys Fd U V → Unit {0} → Type 0
    Killed t x = t.killed ≡ true

    end_with-Killed :
        {A : Type 0} (R : Client Sys Fd U V → A → Type 0) (e : PostedError)
        → (o : Outcome
            (Client Sys Fd U V × List (PendingDestructor U))
            (Client Sys Fd U V × InvalidId))
        → Post R Killed (refused host (end_with host e o))
    unfolding refused end_with kill
    end_with-Killed R e (returns x) = refl
    end_with-Killed R e (fails x) = refl
    end_with-Killed R e panics = tt

    refuse-Killed :
        {A : Type 0} (R : Client Sys Fd U V → A → Type 0) (e : DisplayError) (text : ServerText)
        → (s : Client Sys Fd U V) → Post R Killed (refuse host e text s)
    unfolding refuse post_display_error post_error
    refuse-Killed R e text s = end_with-Killed R _ _

    module _ (c : Client Sys Fd U V) where
      abbrev Steps : {A : Type 0} → (A → Type 0) → M (Client Sys Fd U V) (Unit {0}) A → Type 0
      Steps Q m = (s : Client Sys Fd U V) → Grown c s → Post (λ t a. Grown c t × Q a) Killed (m s)

      bind-Steps :
          {A B : Type 0} (P : A → Type 0) (Q : B → Type 0) (m : M (Client Sys Fd U V) (Unit {0}) A)
          → (f : A → M (Client Sys Fd U V) (Unit {0}) B) → Steps P m
          → ((a : A) → P a → Steps Q (f a))
          → Steps Q (m >>= f)
      bind-Steps P Q m f h k s g =
          Post-bind (λ t a. Grown c t × P a) (λ t a. Grown c t × Q a) Killed (m s) f (h s g)
            (λ a t q. k a q.1 t q.0)

      known-Steps : (o : ℕ) → Steps (λ _. Unit {0}) (known_argument host o)
      unfolding known_argument
      known-Steps o s g = elim (Option-cases (find s.map o)) [
        | inl e ↦ rw (e, known_argument, Post) (refuse-Killed _ _ _ s)
        | inr (object, e) ↦ rw (e, known_argument, Post) (g, tt)
      ]

      check-Steps :
          (i : InterfaceRef) (desc : MessageDesc) (expected : Option InterfaceRef) (o : ℕ)
          → (object : Object (ServerData U))
          → Steps (λ _. Unit {0}) (check_argument host i desc expected o object)
      unfolding check_argument
      check-Steps i desc none o object s g = (g, tt)
      check-Steps i desc (some expected) o object s g =
          elim (Bool-cases (same_interface_or_anonymous statics expected object.interface)) [
            | inl e ↦ rw e (g, tt)
            | inr e ↦ rw e (refuse-Killed _ _ _ s)
          ]

      -- An id of this client, with a given number.
      abbrev pub Owned : ℕ → ServerObjectId → Type 0
      Owned n id = (id.id ≡ n) × (id.client_id ≡ c.id)

      object-Steps :
          (i : InterfaceRef) (desc : MessageDesc) (n : ℕ) (expected : Option InterfaceRef) (o : ℕ)
          → Steps (Owned o) (request_object host i desc n expected o)
      unfolding request_object
      object-Steps i desc n expected o s g = elim (Bool-cases (o == 0)) [
        | inl e ↦ rw e (
            Post-bind (λ t _. Grown c t) (λ t a. Grown c t × Owned o a) Killed
              (unwrap (allows_null (get_elem? desc.signature n)) s) _
              (Post-unwrap (λ t _. Grown c t) Killed _ s (λ _ _. g))
              (λ allowed t h. elim (Bool-cases allowed) [
                | inl a ↦ rw a (h, (ground arith, g.same_id))
                | inr a ↦ rw a (refuse-Killed _ _ _ t)
              ]))
        | inr e ↦ rw e (
            bind-Steps (λ _. Unit {0}) (Owned o) (known_argument host o) _ (known-Steps o)
              (λ object _.
                bind-Steps (λ _. Unit {0}) (Owned o) (check_argument host i desc expected o object)
                  _ (check-Steps i desc expected o object) (λ _ _ t h. (h, (refl, g.same_id))))
              s g)
      ]

      created-Post :
          (s : Client Sys Fd U V) (n : ℕ) (p : Object (ServerData U)) (id : ServerObjectId)
          → Grown c s
          → Owned n id
          → (r : Result (ObjectMap (ServerData U)) (Unit {0})) → insert_at s.map n p ≡ r
          → Post (λ t a. Grown c t × Owned n a) Killed (created_object host s id r)
      unfolding created_object
      created-Post s n p id g o (ok m) e = (
        record {
          same_socket = g.same_socket;
          same_id = g.same_id;
          same_killed = g.same_killed;
          kept = λ j x h. insert_at-kept s.map m n p e j x (g.kept j x h);
        },
        o,
      )
      created-Post s n p id g o (err x) e = refuse-Killed _ _ _ s

      create-Steps :
          (object : Object (ServerData U)) (i : InterfaceRef) (n : ℕ)
          → Steps (Owned n) (create_requested host object i n)
      unfolding create_requested next_client_serial
      create-Steps object i n s g =
          created-Post (next_client_serial s).0 n _ _
            (record {
              same_socket = g.same_socket;
              same_id = g.same_id;
              same_killed = g.same_killed;
              kept = g.kept;
            })
            (refl, g.same_id) _ refl

      -- The rest of a request whose first argument is `b` on the wire.
      rest-Steps :
          (a : Argument ServerObjectId Fd) (args : List (Argument ℕ Fd))
          → (m : M (Client Sys Fd U V) (Unit {0}) (Request Fd)) → OwnedArg c.id a
          → created_by a ≡ none
          → Steps (Delivered c.id args) m
          → Steps (Delivered c.id (wire_of a ∷ args)) (m >>= λ rest. pure (request_arg a rest))
      rest-Steps a args m own old h =
          bind-Steps (Delivered c.id args) (Delivered c.id (wire_of a ∷ args)) m _ h (λ r d t g. (
            g,
            record {
              wire = ap (λ l. wire_of a ∷ l) d.wire;
              owned = (own, d.owned);
              created = d.created ∙ or_later-none (created_by a) (last_created r.args) old;
            },
          ))

      convert-Steps :
          (object : Object (ServerData U)) (desc : MessageDesc) (i : ℕ)
          → (interfaces : List InterfaceRef) (args : List (Argument ℕ Fd))
          → Steps (Delivered c.id args) (convert_request host object desc i interfaces args)
      unfolding convert_request
      convert-Steps object desc i interfaces [] =
          λ s g. (g, record { wire = refl; owned = tt; created = refl })
      convert-Steps object desc i interfaces (Argument.object o ∷ args) =
          bind-Steps (Owned o) (Delivered c.id (Argument.object o ∷ args))
            (request_object host object.interface desc i (first_of interfaces) o) _
            (object-Steps object.interface desc i (first_of interfaces) o)
            (λ id owned.
              bind-Steps (Delivered c.id args) (Delivered c.id (Argument.object o ∷ args))
                (convert_request host object desc (i + 1) (rest_of interfaces) args) _
                (convert-Steps object desc (i + 1) (rest_of interfaces) args)
                (λ r d t g. (
                  g,
                  record {
                    wire = rw (d.wire, owned.0) refl;
                    owned = (owned.1, d.owned);
                    created = d.created ∙ or_later-none none (last_created r.args) refl;
                  },
                )))
      convert-Steps object desc i interfaces (Argument.new_id n ∷ args) =
          bind-Steps (λ _. Unit {0}) (Delivered c.id (Argument.new_id n ∷ args))
            (unwrap desc.child_interface) _
            (λ s g.
              Post-unwrap (λ t _. Grown c t × Unit {0}) Killed desc.child_interface s
                (λ _ _. (g, tt)))
            (λ child _.
              bind-Steps (Owned n) (Delivered c.id (Argument.new_id n ∷ args))
                (create_requested host object child n) _ (create-Steps object child n)
                (λ id owned.
                  bind-Steps (Delivered c.id args) (Delivered c.id (Argument.new_id n ∷ args))
                    (convert_request host object desc (i + 1) interfaces args) _
                    (convert-Steps object desc (i + 1) interfaces args)
                    (λ r d t g. (
                      g,
                      record {
                        wire = rw (d.wire, owned.0) refl;
                        owned = (owned.1, d.owned);
                        created = rw d.created (or_later-some id (last_created r.args));
                      },
                    ))))
      convert-Steps object desc i interfaces (Argument.int x ∷ args) =
          rest-Steps (Argument.int x) args _ tt refl
            (convert-Steps object desc (i + 1) interfaces args)
      convert-Steps object desc i interfaces (Argument.uint x ∷ args) =
          rest-Steps (Argument.uint x) args _ tt refl
            (convert-Steps object desc (i + 1) interfaces args)
      convert-Steps object desc i interfaces (Argument.fixed x ∷ args) =
          rest-Steps (Argument.fixed x) args _ tt refl
            (convert-Steps object desc (i + 1) interfaces args)
      convert-Steps object desc i interfaces (Argument.str x ∷ args) =
          rest-Steps (Argument.str x) args _ tt refl
            (convert-Steps object desc (i + 1) interfaces args)
      convert-Steps object desc i interfaces (Argument.array x ∷ args) =
          rest-Steps (Argument.array x) args _ tt refl
            (convert-Steps object desc (i + 1) interfaces args)
      convert-Steps object desc i interfaces (Argument.fd x ∷ args) =
          rest-Steps (Argument.fd x) args _ tt refl
            (convert-Steps object desc (i + 1) interfaces args)

    module _ (object : Object (ServerData U)) (m : Message ℕ Fd) (c : Client Sys Fd U V) where
      -- A request is given to the handler with the arguments of the wire, or its client is killed.
      abbrev Handled : Client Sys Fd U V → Option (Request Fd × Bool) → Type 0
      Handled t none = t.killed ≡ true
      Handled t (some (r, is_destructor)) = Grown c t × Delivered c.id m.args r

      processed-Post :
          (d : Bool) (o : Outcome (Client Sys Fd U V × Request Fd) (Client Sys Fd U V × Unit {0}))
          → Post (λ t r. Grown c t × Delivered c.id m.args r) Killed o
          → Post Handled (λ _ _. ⊥) (processed host d o)
      unfolding processed
      processed-Post d (returns (t, r)) h = h
      processed-Post d (fails (t, x)) h = h
      processed-Post d panics h = tt

      described-Post :
          (desc : Option MessageDesc) → Post Handled (λ _ _. ⊥) (described host object m desc c)
      unfolding described
      described-Post none = tt
      described-Post (some desc) = processed-Post desc.is_destructor _ (
          convert-Steps c object desc 0 desc.arg_interfaces m.args c
            (record { same_socket = refl; same_id = refl; same_killed = refl; kept = λ j o h. h }))

      process_request-Post : Post Handled (λ _ _. ⊥) (process_request host object m c)
      unfolding process_request
      process_request-Post = described-Post _

      module _ {t : Client Sys Fd U V} where
        -- A handler that is called for a request gets the arguments of the wire, with the same
        -- numbers in place of the ids, all of them of this client, and as the created object the
        -- last new id among them. Before that, nothing was written to the client's socket, the
        -- client has not been killed, and its objects have only become more: each id that stood for
        -- an object stands for the same one.
        pub process_request-Grown :
            {r : Request Fd} {is_destructor : Bool}
            → process_request host object m c ≡ returns (t, some (r, is_destructor))
            → Grown c t × Delivered c.id m.args r
        process_request-Grown h = subst (Post Handled (λ _ _. ⊥)) h process_request-Post

        -- The client of a request that is not given to a handler is killed.
        pub process_request_refused :
            process_request host object m c ≡ returns (t, none) → t.killed ≡ true
        process_request_refused h = subst (Post Handled (λ _ _. ⊥)) h process_request-Post
