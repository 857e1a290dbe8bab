-- ===== src/Server/Registry.antt =====
-- wayland-backend/src/rs/server_impl/registry.rs: the globals, and the registries to which they are
-- announced. A call may panic, so the operations that send are in the monad of `Outcome`; a `Result`
-- that the code discards with `let _ =` is discarded by `on_client`.
pub mod Lookup
pub mod Change
pub mod Binding
use wayland_rs.Common.{
  ℕ, zero, suc, ◌+◌, ◌-◌, ◌%◌, ◌^◌, Bool, true, false, not, ◌&&◌, ◌||◌, Option, none, some, List,
  [], ◌∷◌, ◌++◌, ◌==◌, ltb, if◌then◌else◌, set, bytes_eq, Result, ok, err, Outcome, returns, fails,
  panics, M, ◌>>=◌, ◌>>◌, pure, panic, fail, bind_outcome,
}
use wayland_rs.Protocol.{Argument, Message}
use wayland_rs.Protocol.Interfaces.{Interface, InterfaceRef, deref}
use wayland_rs.Client.State.{InvalidId, invalid_id}
use wayland_rs.Map.{slot, position_free}
use wayland_rs.Server.{
  ClientId, GlobalId, ServerObjectId, client_id_eq, global_id_eq, Peer, occupy, ClientStore,
  on_client,
}

-- `H` stands for `Arc<dyn GlobalHandler<D>>`.
pub record Global (H : Type 0) : Type 0 where
  pub id : GlobalId
  pub interface : InterfaceRef
  pub version : ℕ
  pub handler : H
  pub disabled : Bool

pub record RegistryState (H : Type 0) : Type 0 where
  pub globals : List (Option (Global H))
  pub known_registries : List ServerObjectId
  pub last_serial : ℕ

pub record GlobalInfo : Type 0 where
  pub interface : InterfaceRef
  pub version : ℕ
  pub disabled : Bool

-- The registries of clients that are not dead.
unfoldable pub retained : List ClientId → List ServerObjectId → List ServerObjectId
unfolding client_id_eq
retained dead [] = []
retained dead (o ∷ registries) =
    let rest = retained dead registries in if is_dead dead then rest else o ∷ rest
  where
    is_dead : List ClientId → Bool
    is_dead [] = false
    is_dead (c ∷ cs) = client_id_eq c o.client_id || is_dead cs

module _ {H : Type 0} where
  unfoldable pub new_registry_state : RegistryState H
  new_registry_state = record { globals = []; known_registries = []; last_serial = 0 }

  -- `globals.get(name - 1)`, where 0 - 1 wraps to an index that no vector has.
  unfoldable pub place : RegistryState H → ℕ → Option (Global H)
  unfolding slot
  place r zero = none
  place r (suc i) = slot r.globals i

  with_global_id : GlobalId → Option (Global H) → Result (Global H) InvalidId
  unfolding global_id_eq
  with_global_id g none = err invalid_id
  with_global_id g (some global) = if global_id_eq global.id g then ok global else err invalid_id

  unfoldable pub get_global : RegistryState H → GlobalId → Result (Global H) InvalidId
  unfolding place with_global_id
  get_global r g = with_global_id g (place r g.id)

  unfoldable pub get_info : RegistryState H → GlobalId → Result GlobalInfo InvalidId
  unfolding get_global
  get_info r g = elim (get_global r g) [
    | ok global ↦ ok (record {
      interface = global.interface;
      version = global.version;
      disabled = global.disabled;
    })
    | err x ↦ err x
  ]

  unfoldable pub get_handler : RegistryState H → GlobalId → Result H InvalidId
  unfolding get_global
  get_handler r g = elim (get_global r g) [ ok global ↦ ok global.handler | err x ↦ err x ]

  unfoldable pub cleanup : RegistryState H → List ClientId → RegistryState H
  unfolding retained
  cleanup r dead = record r { known_registries = retained dead r.known_registries }

  disable : Global H → Global H
  disable global = record global { disabled = true }

  -- The global is put down as disabled at its place.
  pub mark_disabled : RegistryState H → GlobalId → Global H → RegistryState H
  unfolding disable
  mark_disabled r g global = record r { globals = set r.globals (g.id - 1) (some (disable global)) }

  -- `*place = None`, if the id is still that of the place.
  pub vacate : GlobalId → RegistryState H → RegistryState H
  unfolding get_global
  vacate g r = elim (get_global r g) [
    | ok global ↦ record r { globals = set r.globals (g.id - 1) none }
    | err x ↦ r
  ]

-- `can_view` is the handler's method on the id and the data of a client.
module _ (statics : ℕ → Interface) {P H : Type 0} (peer : Peer P) where
  module _ (can_view : H → peer.Client → GlobalId → Bool) where
    open peer use {Client, send_event}

    abbrev pub State : Type 0
    State = RegistryState H × ClientStore Client

    unfoldable pub check_bind :
        RegistryState H → Client → ℕ → List ℕ → ℕ → Option (InterfaceRef × (GlobalId × H))
    unfolding place
    check_bind r client name interface_name version =
        if name == 0 || version == 0 then none else elim (place r name) [
          | none ↦ none
          | some g ↦
              if not (bytes_eq (deref statics g.interface).name interface_name)
              then none
              else if ltb g.version version
              then none
              else if not (can_view g.handler client g.id)
              then none
              else some (g.interface, (g.id, g.handler))
        ]

    unfoldable pub send_global_to : Global H → ServerObjectId → M Client InvalidId (Unit {0})
    send_global_to global registry = send_event (record {
      sender_id = registry;
      opcode = 0;
      args =
          Argument.uint global.id.id
          ∷ Argument.str (some (deref statics global.interface).name)
          ∷ Argument.uint global.version
          ∷ [];
    })

    unfoldable pub send_global_remove_to : Global H → ServerObjectId → M Client InvalidId (Unit {0})
    send_global_remove_to global registry =
        send_event
          (record { sender_id = registry; opcode = 1; args = Argument.uint global.id.id ∷ [] })

    -- The global is sent to a client that may see it.
    unfoldable pub send_if_visible : Global H → ServerObjectId → M Client InvalidId (Unit {0})
    unfolding send_global_to
    send_if_visible global registry client =
        if not global.disabled && can_view global.handler client global.id
        then send_global_to global registry client
        else returns (client, tt)

    -- `for registry in self.known_registries.iter().cloned()`
    unfoldable pub each_registry :
        (ServerObjectId → M Client InvalidId (Unit {0}))
        → List ServerObjectId
        → M (ClientStore Client) InvalidId (Unit {0})
    unfolding on_client
    each_registry f [] = pure tt
    each_registry f (o ∷ registries) = do
      on_client peer o.client_id (f o)
      each_registry f registries

    unfoldable pub send_global_to_all :
        RegistryState H → GlobalId → M (ClientStore Client) InvalidId (Unit {0})
    unfolding get_global each_registry send_if_visible
    send_global_to_all r g = elim (get_global r g) [
      | ok global ↦
          if global.disabled
          then fail invalid_id
          else each_registry (send_if_visible global) r.known_registries
      | err x ↦ fail x
    ]

    -- `send_all_globals_to`: the first failure ends it.
    unfoldable pub send_all_globals_to :
        List (Option (Global H)) → ServerObjectId → M Client InvalidId (Unit {0})
    unfolding send_if_visible
    send_all_globals_to [] registry = pure tt
    send_all_globals_to (none ∷ globals) registry = send_all_globals_to globals registry
    send_all_globals_to (some global ∷ globals) registry = do
      send_if_visible global registry
      send_all_globals_to globals registry

    known :
        RegistryState H
        → ServerObjectId
        → Outcome (Client × Unit {0}) (Client × InvalidId)
        → Outcome ((RegistryState H × Client) × Unit {0}) ((RegistryState H × Client) × InvalidId)
    known r registry (returns (client, x)) =
        returns ((record r { known_registries = r.known_registries ++ registry ∷ [] }, client), tt)
    known r registry (fails (client, x)) = fails ((r, client), x)
    known r registry panics = panics

    unfoldable pub new_registry : ServerObjectId → M (RegistryState H × Client) InvalidId (Unit {0})
    unfolding send_all_globals_to known
    new_registry registry (r, client) =
        known r registry (send_all_globals_to r.globals registry client)

    -- An operation on the clients alone, whose failure `unwrap` turns into a panic.
    with_clients :
        {A : Type 0}
        → RegistryState H
        → A
        → Outcome (ClientStore Client × Unit {0}) (ClientStore Client × InvalidId)
        → Outcome (State × A) (State × InvalidId)
    with_clients r a (returns (clients, x)) = returns ((r, clients), a)
    with_clients r a (fails x) = panics
    with_clients r a panics = panics

    -- The registry with a new global, and its id.
    added : RegistryState H → InterfaceRef → ℕ → H → RegistryState H × GlobalId
    unfolding occupy
    added r interface version handler =
        let serial = (r.last_serial + 1) % 2 ^ 32 in
        let (globals, i) = occupy r.globals (λ i. record {
          id = record { id = (i % 2 ^ 32 + 1) % 2 ^ 32; serial = serial };
          interface = interface;
          version = version;
          handler = handler;
          disabled = false;
        }) in
        (
          record r { globals = globals; last_serial = serial },
          record { id = (i % 2 ^ 32 + 1) % 2 ^ 32; serial = serial },
        )

    unfoldable pub create_global : InterfaceRef → ℕ → H → M State InvalidId GlobalId
    unfolding added send_global_to_all with_clients
    create_global interface version handler (r, clients) =
        if ltb (deref statics interface).version version
        then panics
        else (let (r', g) = added r interface version handler in
            with_clients r' g (send_global_to_all r' g clients))

    unfoldable pub disable_global : GlobalId → M State InvalidId (Unit {0})
    unfolding get_global mark_disabled disable send_global_remove_to each_registry with_clients
    disable_global g (r, clients) = elim (get_global r g) [
      | err x ↦ returns ((r, clients), tt)
      | ok global ↦
          if global.disabled
          then returns ((r, clients), tt)
          else with_clients (mark_disabled r g global) tt
              (each_registry (send_global_remove_to (disable global)) r.known_registries clients)
    ]

    unfoldable pub remove_global : GlobalId → M State InvalidId (Unit {0})
    unfolding disable_global vacate
    remove_global g = do disable_global g; (λ (r, clients). returns ((vacate g r, clients), tt))
