-- ===== src/Server.antt =====
-- The parts of the server's backend that its clients share: the ids of server_impl/mod.rs and the
-- store of the clients (`ClientStore` of server_impl/client.rs).
pub mod Clients
pub mod Client
pub mod Sending
pub mod Registry
pub mod Requests
pub mod Conversion
pub mod Handlers
pub mod Display
pub mod Dispatch
pub mod Cleanup
use wayland_rs.Common.{
  ℕ, ◌+◌, ◌*◌, ◌/◌, ◌%◌, ◌^◌, Bool, true, false, not, ◌&&◌, Option, none, some, List, [], ◌∷◌, ◌++◌,
  map, ◌==◌, if◌then◌else◌, length, set, Result, ok, err, returns, fails, panics, Outcome, M,
}
use wayland_rs.Protocol.{Message}
use wayland_rs.Protocol.Interfaces.{Interface, InterfaceRef, same_interface}
use wayland_rs.Client.State.{InvalidId, invalid_id}
use wayland_rs.Map.{slot, position_free}

pub record ClientId : Type 0 where
  pub id : ℕ
  pub serial : ℕ

pub record GlobalId : Type 0 where
  pub id : ℕ
  pub serial : ℕ

pub record ServerObjectId : Type 0 where
  pub id : ℕ
  pub serial : ℕ
  pub client_id : ClientId
  pub interface : InterfaceRef

unfoldable pub client_id_eq : ClientId → ClientId → Bool
client_id_eq a b = a.id == b.id && a.serial == b.serial

unfoldable pub global_id_eq : GlobalId → GlobalId → Bool
global_id_eq a b = a.id == b.id && a.serial == b.serial

unfoldable pub server_object_id_eq : (ℕ → Interface) → ServerObjectId → ServerObjectId → Bool
unfolding client_id_eq
server_object_id_eq statics a b =
    a.id == b.id
    && (a.serial == b.serial
        && (client_id_eq a.client_id b.client_id && same_interface statics a.interface b.interface))

-- The two halves of a u64.
unfoldable pub as_u64 : ClientId → ℕ
as_u64 c = c.id * 2 ^ 32 + c.serial

unfoldable pub from_u64 : ℕ → ClientId
from_u64 t = record { id = t / 2 ^ 32; serial = t % 2 ^ 32 }

-- `Client`, as far as the store and the registry use it. `queue_all_destructors` gives what it adds
-- to the pending destructors, and `flush` what a flush makes of the client.
pub record Peer (P : Type 0) : Type 1 where
  pub Client : Type 0
  pub id : Client → ClientId
  pub killed : Client → Bool
  pub send_event : Message ServerObjectId ℕ → M Client InvalidId (Unit {0})
  pub queue_all_destructors : Client → Client × List P
  pub flush : Client → Client

-- The first free place, or a new one at the end, gets what `make` gives for it.
unfoldable pub occupy : {A : Type 0} → List (Option A) → (ℕ → A) → List (Option A) × ℕ
occupy store make = elim (position_free store) [
  | some i ↦ (set store i (some (make i)), i)
  | none ↦ (store ++ some (make (length store)) ∷ [], length store)
]

-- The clients are those of a `Peer`; only the operations that use more of it take it.
pub record ClientStore (C : Type 0) : Type 0 where
  pub clients : List (Option C)
  pub last_serial : ℕ

module _ {C : Type 0} where
  unfoldable pub new_store : ClientStore C
  new_store = record { clients = []; last_serial = 0 }

  -- `make` is `Client::new` on a stream and its data.
  unfoldable pub create_client : ClientStore C → (ClientId → C) → ClientStore C × ClientId
  unfolding occupy
  create_client s make =
      let serial = (s.last_serial + 1) % 2 ^ 32 in
      let (clients, i) =
        occupy s.clients (λ i. make (record { id = i % 2 ^ 32; serial = serial })) in
      (
        record { clients = clients; last_serial = serial },
        record { id = i % 2 ^ 32; serial = serial },
      )

module _ {P : Type 0} (peer : Peer P) where
  open peer use {Client, id, killed, queue_all_destructors, flush}

  with_id : ClientId → Option Client → Result Client InvalidId
  unfolding client_id_eq
  with_id c none = err invalid_id
  with_id c (some client) = if client_id_eq (id client) c then ok client else err invalid_id

  unfoldable pub get_client : ClientStore Client → ClientId → Result Client InvalidId
  unfolding with_id slot
  get_client s c = with_id c (slot s.clients c.id)

  put_back :
      {E : Type 0}
      → ClientStore Client
      → ℕ
      → Outcome (Client × Unit {0}) (Client × E)
      → Outcome (ClientStore Client × Unit {0}) (ClientStore Client × E)
  put_back s i (returns (client, x)) =
      returns (record s { clients = set s.clients i (some client) }, tt)
  put_back s i (fails (client, x)) =
      returns (record s { clients = set s.clients i (some client) }, tt)
  put_back s i panics = panics

  -- `if let Ok(client) = clients.get_client_mut(id) { let _ = ... }`
  unfoldable pub on_client :
      {E : Type 0} → ClientId → M Client E (Unit {0}) → M (ClientStore Client) E (Unit {0})
  unfolding get_client put_back
  on_client c f s = elim (get_client s c) [
    | ok client ↦ put_back s c.id (f client)
    | err x ↦ returns (s, tt)
  ]

  -- The places without the killed clients, the destructors of these, and their ids.
  unfoldable pub take_killed :
      List (Option Client) → List (Option Client) × (List P × List ClientId)
  take_killed [] = ([], ([], []))
  take_killed (none ∷ store) =
      let (rest, (pending, ids)) = take_killed store in (none ∷ rest, (pending, ids))
  take_killed (some client ∷ store) =
      let (rest, (pending, ids)) = take_killed store in
      let (left, queued) = queue_all_destructors client in
      if killed client
      then (none ∷ rest, (queued ++ pending, id (flush left) ∷ ids))
      else (some client ∷ rest, (pending, ids))

  unfoldable pub cleanup_clients :
      ClientStore Client → List P → ClientStore Client × (List P × List ClientId)
  unfolding take_killed
  cleanup_clients s pending =
      let (clients, (queued, ids)) = take_killed s.clients in
      (record s { clients = clients }, (pending ++ queued, ids))

  living : List (Option Client) → List Client
  living [] = []
  living (none ∷ store) = living store
  living (some client ∷ store) =
      let rest = living store in if killed client then rest else client ∷ rest

  unfoldable pub all_clients_id : ClientStore Client → List ClientId
  unfolding living
  all_clients_id s = map id (living s.clients)
