-- ===== src/Globals.antt =====
-- wayland-client/src/globals.rs: the list of the globals that the server has announced, and `bind`.
pub mod Contents
use Prim.Native.Nat.{min}
use wayland_rs.Common.{
  ℕ, Bool, true, false, not, Option, none, some, List, [], ◌∷◌, ◌++◌, ltb, ◌==◌, if◌then◌else◌,
  bytes_eq, Outcome, returns, fails, panics,
}
use wayland_rs.Protocol.Interfaces.{Interface}
use wayland_rs.Queue.{EventQueueInner, enqueue_event}

pub record Global : Type 0 where
  pub name : ℕ
  pub interface : List ℕ
  pub version : ℕ

-- `wl_registry::Event`, which wayland-scanner generates.
pub data RegistryEvent : Type 0 where
  announced : Global → RegistryEvent
  withdrawn : ℕ → RegistryEvent

pub data BindError : Type 0 where
  unsupported_version not_present : BindError

-- `guard.retain(|Global { name, .. }| name != &remove)`
unfoldable pub retain_others : ℕ → List Global → List Global
retain_others n [] = []
retain_others n (g ∷ gs) =
    let rest = retain_others n gs in if not (g.name == n) then g ∷ rest else rest

unfoldable pub registry_event : RegistryEvent → List Global → List Global
unfolding retain_others
registry_event (announced g) gs = gs ++ g ∷ []
registry_event (withdrawn n) gs = retain_others n gs

-- A malformed message changes nothing.
listed : Option RegistryEvent → List Global → List Global
unfolding registry_event
listed none gs = gs
listed (some e) gs = registry_event e gs

-- `RegistryState`; `M` is a message of the registry, and `handle` the queue that the messages go to once the
-- list has been filled.
pub record RegistryState (M W : Type 0) : Type 0 where
  pub globals : List Global
  pub handle : EventQueueInner M W
  pub initial_roundtrip_done : Bool

-- `parse_event` is generated; `none` is a message that it refuses.
unfoldable pub event :
    {M W : Type 0} → (M → Option RegistryEvent) → M → RegistryState M W → RegistryState M W
unfolding listed
event parse_event msg s = record s {
  globals = listed (parse_event msg) s.globals;
  handle = if s.initial_roundtrip_done then enqueue_event msg s.handle else s.handle;
}

-- The first global with the name of an interface.
unfoldable pub first_named : List ℕ → List Global → Option Global
first_named interface [] = none
first_named interface (g ∷ gs) =
    let rest = first_named interface gs in if bytes_eq interface g.interface then some g else rest

bind_version : ℕ → ℕ → Option Global → Outcome (ℕ × ℕ) BindError
bind_version start end none = fails not_present
bind_version start end (some g) =
    if ltb g.version start then fails unsupported_version else returns (g.name, min g.version end)

-- The name and the version of the `bind` request that is sent.
unfoldable pub bind : Interface → ℕ → ℕ → List Global → Outcome (ℕ × ℕ) BindError
unfolding bind_version first_named
bind interface start end gs =
    if ltb interface.version end
    then panics
    else bind_version start end (first_named interface.name gs)
