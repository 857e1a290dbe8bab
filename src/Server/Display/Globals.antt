-- ===== src/Server/Display/Globals.antt =====
-- The operations of `Handle` on globals, of wayland-backend/src/rs/server_impl/handle.rs: the registry's,
-- on the clients of the state.
use wayland_rs.Common.{ℕ, Bool, Outcome, returns, fails, panics, M, Result}
use wayland_rs.Protocol.Interfaces.{InterfaceRef}
use wayland_rs.Client.State.{InvalidId}
use wayland_rs.Server.{ClientId, GlobalId, ClientStore}
use wayland_rs.Server.Client.{Host, Client}
use wayland_rs.Server.Sending.{client_peer}
use wayland_rs.Server.Registry.{
  RegistryState, GlobalInfo, create_global, disable_global, remove_global, get_info, get_handler,
}
use wayland_rs.Server.Display.{ServerState}

module _ {Fd : Type 0} (host : Host ℕ Fd) where
  open host use {statics, kernel}
  open kernel use {Sys}

  module _ {U V H : Type 0} (may_view : H → ClientId → V → GlobalId → Bool) where
    sees : H → Client Sys Fd U V → GlobalId → Bool
    sees h c g = may_view h c.id c.client_data g

    -- What the registry makes of itself and of the clients.
    with_registry :
        {A : Type 0}
        → ServerState Sys Fd U V H
        → Outcome
            ((RegistryState H × ClientStore (Client Sys Fd U V)) × A)
            ((RegistryState H × ClientStore (Client Sys Fd U V)) × InvalidId)
        → Outcome (ServerState Sys Fd U V H × A) (ServerState Sys Fd U V H × InvalidId)
    with_registry s (returns ((r, clients), a)) =
        returns (record s { registry = r; clients = clients }, a)
    with_registry s (fails ((r, clients), x)) =
        fails (record s { registry = r; clients = clients }, x)
    with_registry s panics = panics

    unfoldable pub state_create_global :
        InterfaceRef → ℕ → H → M (ServerState Sys Fd U V H) InvalidId GlobalId
    unfolding with_registry sees
    state_create_global interface version handler s = with_registry s (
        create_global statics (client_peer host U V) sees interface version handler
          (s.registry, s.clients))

    unfoldable pub state_disable_global :
        GlobalId → M (ServerState Sys Fd U V H) InvalidId (Unit {0})
    unfolding with_registry sees
    state_disable_global g s =
        with_registry s
          (disable_global statics (client_peer host U V) sees g (s.registry, s.clients))

    unfoldable pub state_remove_global :
        GlobalId → M (ServerState Sys Fd U V H) InvalidId (Unit {0})
    unfolding with_registry sees
    state_remove_global g s =
        with_registry s
          (remove_global statics (client_peer host U V) sees g (s.registry, s.clients))

module _ {Sys Fd U V H : Type 0} where
  unfoldable pub state_global_info :
      ServerState Sys Fd U V H → GlobalId → Result GlobalInfo InvalidId
  state_global_info s g = get_info s.registry g

  unfoldable pub state_get_global_handler : ServerState Sys Fd U V H → GlobalId → Result H InvalidId
  state_get_global_handler s g = get_handler s.registry g
