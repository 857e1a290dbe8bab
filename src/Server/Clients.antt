-- ===== src/Server/Clients.antt =====
-- The server's store of clients: an id finds its own client and no other, also after its place is
-- used again.
use wayland_rs.Common.{
  ℕ, ◌+◌, ◌*◌, ◌/◌, ◌%◌, ◌^◌, ◌<◌, zero, suc, [], ◌∷◌, ◌≡◌, refl, ap, sym, ◌∙◌, Option, none, some,
  List, Option-cases, inl, inr, ◌==◌, if◌then◌else◌, length, Result, ok, err, arith, Bool-cases,
}
use wayland_rs.Client.State.{InvalidId, invalid_id}
use wayland_rs.Map.{slot, position_free}
use wayland_rs.Map.Store.{Filled, Filled-append, Filled-set, position_free-some}
use wayland_rs.Server.{
  ClientId, client_id_eq, as_u64, from_u64, Peer, occupy, ClientStore, create_client, with_id,
  get_client, take_killed, cleanup_clients,
}

-- A client id is what the u64 that stands for it in the C interface decodes to.
pub from_u64-as_u64 : (c : ClientId) → c.id < 2 ^ 32 → c.serial < 2 ^ 32 → from_u64 (as_u64 c) ≡ c
unfolding from_u64 as_u64
from_u64-as_u64 c h k =
    let p : (c.id * 2 ^ 32 + c.serial) / 2 ^ 32 ≡ c.id = omega arith in
    let q : (c.id * 2 ^ 32 + c.serial) % 2 ^ 32 ≡ c.serial = omega arith in rw (p, q)

pub occupy-Filled :
    {A : Type 0} (store : List (Option A)) (make : ℕ → A)
    → Filled store (occupy store make).0 (occupy store make).1 (make (occupy store make).1)
unfolding occupy
occupy-Filled store make = elim (Option-cases (position_free store)) [
  | inl e ↦ rw (e, occupy) (Filled-append store (make (length store)))
  | inr (i, e) ↦
      let (lt, free) = position_free-some store i e in
      rw (e, occupy) (Filled-set store i (make i) lt free)
]

module _ {P : Type 0} (peer : Peer P) where
  open peer use {Client, id}

  -- A look at a store in which the free place of `a` has been filled.
  with_id-Filled :
      {store store' : List (Option Client)} {i : ℕ} {a : Client} (g c : ClientId)
      → Filled store store' i a
      → id a ≡ g
      → g.id ≡ i
      → with_id peer c (slot store' c.id)
        ≡ (if client_id_eq g c then ok a else with_id peer c (slot store c.id))
  unfolding with_id client_id_eq
  with_id-Filled {store} {store'} {i} {a} g c f named p =
      rw (f.slots c.id) (elim (Bool-cases (i == c.id)) [
        | inl e ↦
            let q : i ≡ c.id = ground arith in
            let free : slot store c.id ≡ none = ap (slot store) (sym q) ∙ f.free in
            rw (e, free, named) refl
        | inr e ↦ rw (e, p, e) refl
      ])

  -- After create_client, the new id finds the new client, every other id finds what it found
  -- before, an id with the same number and another serial included; the store has had fewer than
  -- 2^32 places, and a new client has the id that it is made with.
  pub get_client-create_client :
      (s : ClientStore Client) (make : ClientId → Client) (c : ClientId)
      → length s.clients < 2 ^ 32
      → ((a : ClientId) → id (make a) ≡ a)
      → get_client peer (create_client s make).0 c ≡ (
          if client_id_eq (create_client s make).1 c
          then ok (make (create_client s make).1)
          else get_client peer s c)
  unfolding get_client create_client
  get_client-create_client s make c h named =
      let serial = (s.last_serial + 1) % 2 ^ 32 in
      let named_at : ℕ → Client = λ i. make (record { id = i % 2 ^ 32; serial = serial }) in
      let i = (occupy s.clients named_at).1 in
      let f = occupy-Filled s.clients named_at in
      let small : i % 2 ^ 32 ≡ i = omega (arith, f.within) in
      let p : id (named_at i) ≡ record { id = i % 2 ^ 32; serial = serial } = named _ in
      with_id-Filled _ c f p small

  -- What a cleanup leaves of a place.
  abbrev spared : Option Client → Option Client
  spared none = none
  spared (some client) = if peer.killed client then none else some client

  -- What a lookup finds once the killed clients are gone.
  abbrev pub living_only : Result Client InvalidId → Result Client InvalidId
  living_only (err x) = err x
  living_only (ok client) = if peer.killed client then err invalid_id else ok client

  slot-take_killed :
      (store : List (Option Client)) (j : ℕ)
      → slot (take_killed peer store).0 j ≡ spared (slot store j)
  unfolding take_killed slot
  slot-take_killed [] j = refl
  slot-take_killed (none ∷ store) zero = refl
  slot-take_killed (none ∷ store) (suc j) = slot-take_killed store j
  slot-take_killed (some client ∷ store) zero = elim (Bool-cases (peer.killed client)) [
    | inl e ↦ rw e refl
    | inr e ↦ rw e refl
  ]
  slot-take_killed (some client ∷ store) (suc j) = elim (Bool-cases (peer.killed client)) [
    | inl e ↦ rw e (slot-take_killed store j)
    | inr e ↦ rw e (slot-take_killed store j)
  ]

  with_id-spared :
      (c : ClientId) (o : Option Client)
      → with_id peer c (spared o) ≡ living_only (with_id peer c o)
  unfolding with_id
  with_id-spared c none = refl
  with_id-spared c (some client) = elim (Bool-cases (peer.killed client)) [
    | inl e ↦ elim (Bool-cases (client_id_eq (id client) c)) [
      | inl f ↦ rw (e, f, e) refl
      | inr f ↦ rw (e, f) refl
    ]
    | inr e ↦ elim (Bool-cases (client_id_eq (id client) c)) [
      | inl f ↦ rw (e, f, e) refl
      | inr f ↦ rw (e, f) refl
    ]
  ]

  -- After a cleanup an id finds what it found before, unless that client was killed: then it finds
  -- nothing.
  pub get_client-cleanup_clients :
      (s : ClientStore Client) (pending : List P) (c : ClientId)
      → get_client peer (cleanup_clients peer s pending).0 c ≡ living_only (get_client peer s c)
  unfolding get_client cleanup_clients
  get_client-cleanup_clients s pending c =
      rw (slot-take_killed s.clients c.id) (with_id-spared c (slot s.clients c.id))
