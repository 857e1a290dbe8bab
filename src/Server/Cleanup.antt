-- ===== src/Server/Cleanup.antt =====
-- What `State::cleanup` of wayland-backend/src/rs/server_impl/handle.rs hands to its closure.
use mathlib.Core.Path.{subst, subst⁻¹}
use wayland_rs.Common.{
  ℕ, zero, suc, ◌≡◌, ◌↔◌, ◌⊎◌, refl, ap, ◌∙◌, inl, inr, true, Bool-cases, Option, none, some, List,
  [], ◌∷◌, map, arith,
}
use wayland_rs.Map.{Object, find, all_objects, slot}
use wayland_rs.Map.Bounds.{IsBounded}
use wayland_rs.Map.Iterate.{In, In-append, In-append_left, In-append_right, all_objects_iff}
use wayland_rs.Server.{Peer, take_killed, cleanup_clients}
use wayland_rs.Server.Client.{
  ServerData, Host, Client, PendingDestructor, id_in, queue_all_destructors,
}
use wayland_rs.Server.Sending.{client_peer}
use wayland_rs.Server.Display.{ServerState, state_cleanup}

map-In : {A B : Type 0} (f : A → B) (a : A) (xs : List A) → In a xs → In (f a) (map f xs)
map-In f a [] h = absurd h
map-In f a (x ∷ xs) (inl e) = inl (ap f e)
map-In f a (x ∷ xs) (inr h) = inr (map-In f a xs h)

In-map :
    {A B : Type 0} (f : A → B) (b : B) (xs : List A)
    → In b (map f xs)
    → (a : A) × In a xs × (f a ≡ b)
In-map f b [] h = absurd h
In-map f b (x ∷ xs) (inl e) = (x, inl refl, e)
In-map f b (x ∷ xs) (inr h) = let (a, i, e) = In-map f b xs h in (a, inr i, e)

module _ {P : Type 0} (peer : Peer P) where
  open peer use {Client, id, killed, queue_all_destructors, flush}

  -- A killed client of the store whose destructors have this one among them.
  abbrev pub Queued : List (Option Client) → P → Type 0
  Queued store x =
      (i : ℕ) × (c : Client) × (slot store i ≡ some c)
      × (killed c ≡ true)
      × In x (queue_all_destructors c).1

  later :
      (a : Option Client) (store : List (Option Client)) (x : P)
      → Queued store x
      → Queued (a ∷ store) x
  unfolding slot
  later a store x (i, c, p, k, q) = (suc i, c, p, k, q)

  take_killed→Queued :
      (store : List (Option Client)) (x : P) → In x (take_killed peer store).1.0 → Queued store x
  unfolding take_killed slot
  take_killed→Queued [] x h = absurd h
  take_killed→Queued (none ∷ store) x h = later none store x (take_killed→Queued store x h)
  take_killed→Queued (some c ∷ store) x h = elim (Bool-cases (killed c)) [
    | inl k ↦ elim (In-append x (queue_all_destructors c).1 _ (rw k at h)) [
      | inl q ↦ (zero, c, refl, k, q)
      | inr r ↦ later (some c) store x (take_killed→Queued store x r)
    ]
    | inr k ↦ later (some c) store x (take_killed→Queued store x (rw k at h))
  ]

  Queued→take_killed :
      (store : List (Option Client)) (x : P) → Queued store x → In x (take_killed peer store).1.0
  unfolding take_killed slot
  Queued→take_killed [] x (i, c, p, k, q) = absurd (ground arith)
  Queued→take_killed (none ∷ store) x (zero, c, p, k, q) = absurd (ground arith)
  Queued→take_killed (none ∷ store) x (suc i, c, p, k, q) =
      Queued→take_killed store x (i, c, p, k, q)
  Queued→take_killed (some d ∷ store) x (zero, c, p, k, q) =
      let same : d ≡ c = ground arith in
      let dead : killed d ≡ true = ap killed same ∙ k in
      rw dead (
        In-append_left x (queue_all_destructors d).1 _
          (subst⁻¹ (λ c. In x (queue_all_destructors c).1) same q))
  Queued→take_killed (some d ∷ store) x (suc i, c, p, k, q) = elim (Bool-cases (killed d)) [
    | inl e ↦ rw e (
        In-append_right x (queue_all_destructors d).1 _
          (Queued→take_killed store x (i, c, p, k, q)))
    | inr e ↦ rw e (Queued→take_killed store x (i, c, p, k, q))
  ]

module _ {Fd : Type 0} (host : Host ℕ Fd) where
  open host use {kernel}
  open kernel use {Sys}

  module _ {U V : Type 0} where
    -- An object of a client that has been killed, with its data and its id.
    abbrev pub Orphan : List (Option (Client Sys Fd U V)) → PendingDestructor U → Type 0
    Orphan store x =
        (i : ℕ) × (c : Client Sys Fd U V) × (n : ℕ) × (object : Object (ServerData U)) × (slot store
            i
          ≡ some c)
        × (c.killed ≡ true)
        × (find c.map n ≡ some object)
        × ((object.user.user_data, c.id, id_in c.id n object) ≡ x)

    abbrev pub AllBounded : List (Option (Client Sys Fd U V)) → Type 0
    AllBounded store = (i : ℕ) (c : Client Sys Fd U V) → slot store i ≡ some c → IsBounded c.map

    orphans_iff :
        (store : List (Option (Client Sys Fd U V))) (x : PendingDestructor U)
        → AllBounded store
        → In x (take_killed (client_peer host U V) store).1.0 ↔ Orphan store x
    unfolding queue_all_destructors
    orphans_iff store x bounded = (
      λ h.
          let (i, c, p, k, q) = take_killed→Queued (client_peer host U V) store x h in
          let ((n, object), r, e) = In-map _ x (all_objects c.map) q in
          (i, c, n, object, p, k, (all_objects_iff c.map n object (bounded i c p)).0 r, e),
      λ (i, c, n, object, p, k, f, e). Queued→take_killed (client_peer host U V) store x (
        i,
        c,
        p,
        k,
        subst (λ x. In x (queue_all_destructors c)) e
            (map-In _ (n, object) (all_objects c.map)
              ((all_objects_iff c.map n object (bounded i c p)).1 f)),
      ),
    )

    -- The destructors that a cleanup hands out are those that were pending and exactly one kind
    -- more: those of the objects of the clients that have been killed, each with its data, its
    -- client and its id. The maps of the clients are within their bounds.
    pub state_cleanup_iff :
        {H : Type 0} (s : ServerState Sys Fd U V H) (x : PendingDestructor U)
        → AllBounded s.clients.clients
        → In x (state_cleanup host s).1 ↔ (In x s.pending_destructors ⊎ Orphan s.clients.clients x)
    unfolding state_cleanup cleanup_clients
    state_cleanup_iff s x bounded = (
      λ h. elim (In-append x s.pending_destructors _ h) [
        | inl old ↦ inl old
        | inr new ↦ inr ((orphans_iff s.clients.clients x bounded).0 new)
      ],
      λ h. elim h [
        | inl old ↦ In-append_left x s.pending_destructors _ old
        | inr new ↦
            In-append_right x s.pending_destructors _
              ((orphans_iff s.clients.clients x bounded).1 new)
      ],
    )
