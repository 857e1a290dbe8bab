-- ===== src/Server/Registry/Binding.antt =====
-- Which globals a client can bind.
use wayland_rs.Common.{
  ℕ, ◌<◌, ◌≤◌, ◌≡◌, ◌↔◌, Bool, true, some, List, Option-cases, inl, inr, arith, bytes_eq,
  bytes_eq→eq, bytes_eq_refl,
}
use wayland_rs.Protocol.Interfaces.{Interface, InterfaceRef, deref}
use wayland_rs.Server.{GlobalId, Peer}
use wayland_rs.Server.Registry.Lookup.{place_in}
use wayland_rs.Server.Registry.{Global, RegistryState, place, check_bind}

module _ (statics : ℕ → Interface) {P H : Type 0} (peer : Peer P)
    (can_view : H → peer.Client → GlobalId → Bool) where
  -- A client may bind a global by its name, an interface and a version.
  pub record Binds (client : peer.Client) (interface_name : List ℕ) (version : ℕ)
      (global : Global H) : Type 0 where
    pub positive : 0 < version
    pub same_name : (deref statics global.interface).name ≡ interface_name
    pub supported : version ≤ global.version
    pub visible : can_view global.handler client global.id ≡ true

  abbrev pub target : Global H → InterfaceRef × (GlobalId × H)
  target g = (g.interface, (g.id, g.handler))

  module _ (r : RegistryState H) (client : peer.Client) (name : ℕ) (interface_name : List ℕ)
      (version : ℕ) where
    -- A bind by a name succeeds exactly for the global at that name, when the client gives its
    -- interface's name and a positive version that it supports, and the handler lets the client see it; the
    -- result is that global. Whether it is disabled plays no part.
    pub check_bind_iff :
        (t : InterfaceRef × (GlobalId × H))
        → (check_bind statics peer can_view r client name interface_name version ≡ some t) ↔ (
            (g : Global H) × ((place r name ≡ some g)
              × (Binds client interface_name version g × (t ≡ target g))))
    unfolding check_bind
    check_bind_iff t = (sound, complete)
      where
        sound :
            check_bind statics peer can_view r client name interface_name version ≡ some t
            → (g : Global H) × ((place r name ≡ some g)
                × (Binds client interface_name version g × (t ≡ target g)))
        sound h = elim (Option-cases (place r name)) [
          | inl e ↦ absurd (ground arith)
          | inr (g, e) ↦ (
            g,
            (
              e,
              (
                record {
                  positive = ground arith;
                  same_name = bytes_eq→eq _ interface_name (ground arith);
                  supported = ground arith;
                  visible = ground arith;
                },
                ground arith,
              ),
            ),
          )
        ]

        complete :
            (g : Global H) × ((place r name ≡ some g)
                × (Binds client interface_name version g × (t ≡ target g)))
            → check_bind statics peer can_view r client name interface_name version ≡ some t
        complete (g, (e, (b, p))) =
            let named : bytes_eq (deref statics g.interface).name interface_name ≡ true =
              rw b.same_name (bytes_eq_refl interface_name) in
            ground (arith, place_in r name g e, b.positive, b.supported, b.visible)
