-- ===== src/Server/Registry/Change.antt =====
-- What creating, disabling and removing a global change for the ids of all globals.
use wayland_rs.Common.{
  ℕ, ◌+◌, ◌%◌, ◌^◌, ◌<◌, ◌≡◌, refl, ap, ◌∙◌, Bool, inl, inr, if◌then◌else◌, length, ok, err, arith,
  ltb, Bool-cases, Result-cases, returns, fails, panics, Outcome, bind_outcome,
}
use wayland_rs.Protocol.Interfaces.{Interface, InterfaceRef, deref}
use wayland_rs.Client.State.{InvalidId, invalid_id}
use wayland_rs.Server.{GlobalId, global_id_eq, Peer, occupy, ClientStore}
use wayland_rs.Server.Clients.{occupy-Filled}
use wayland_rs.Server.Registry.{
  Global, RegistryState, with_global_id, get_global, mark_disabled, vacate, with_clients, added,
  create_global, disable_global, remove_global, send_global_to_all,
}
use wayland_rs.Server.Registry.Lookup.{
  fresh, marked, get_global-Filled, marked-same, get_global-mark_disabled, get_global-vacate,
}

module _ (statics : ℕ → Interface) {P H : Type 0} (peer : Peer P)
    (can_view : H → peer.Client → GlobalId → Bool) where
  get_global-added :
      (r : RegistryState H) (interface : InterfaceRef) (version : ℕ) (handler : H) (j : GlobalId)
      → length r.globals + 1 < 2 ^ 32
      → get_global (added statics peer can_view r interface version handler).0 j ≡ (
          if global_id_eq (added statics peer can_view r interface version handler).1 j
          then ok (
              fresh interface version handler
                (added statics peer can_view r interface version handler).1)
          else get_global r j)
  unfolding added get_global with_global_id
  get_global-added r interface version handler j h =
      let at : ℕ → Global H = λ i.
        fresh interface version handler
          (record { id = (i % 2 ^ 32 + 1) % 2 ^ 32; serial = (r.last_serial + 1) % 2 ^ 32 }) in
      let i = (occupy r.globals at).1 in
      let f = occupy-Filled r.globals at in
      let small : (i % 2 ^ 32 + 1) % 2 ^ 32 ≡ i + 1 = omega (arith, f.within) in
      get_global-Filled r (added statics peer can_view r interface version handler).0
        (record { id = (i % 2 ^ 32 + 1) % 2 ^ 32; serial = (r.last_serial + 1) % 2 ^ 32 }) j f refl
        small

  -- Sending to the clients leaves the globals alone.
  with_clients-registry :
      {A : Type 0} (r r' : RegistryState H) (a a' : A) {clients : ClientStore peer.Client}
      → (o : Outcome (ClientStore peer.Client × Unit {0}) (ClientStore peer.Client × InvalidId))
      → with_clients statics peer can_view r a o ≡ returns ((r', clients), a')
      → (r ≡ r') × (a ≡ a')
  unfolding with_clients
  with_clients-registry r r' a a' (returns (cs, x)) h = (cc, cc)
  with_clients-registry r r' a a' (fails x) h = cc
  with_clients-registry r r' a a' panics h = cc

  module _ (r : RegistryState H) (clients : ClientStore peer.Client) where
    -- When create_global returns the id g, g finds the new global, with its interface, version and
    -- handler and not disabled, and every other id finds what it found before; the registry has
    -- had fewer than 2^32 - 1 places.
    pub get_global-create_global :
        (interface : InterfaceRef) (version : ℕ) (handler : H) (j : GlobalId)
        → {r' : RegistryState H} {clients' : ClientStore peer.Client} {g : GlobalId}
        → length r.globals + 1 < 2 ^ 32
        → create_global statics peer can_view interface version handler (r, clients)
          ≡ returns ((r', clients'), g)
        → get_global r' j
          ≡ (if global_id_eq g j then ok (fresh interface version handler g) else get_global r j)
    unfolding create_global
    get_global-create_global interface version handler j {r'} {clients'} {g} l h =
        elim (Bool-cases (ltb (deref statics interface).version version)) [
          | inl e ↦ absurd (ground arith)
          | inr e ↦
              let new = added statics peer can_view r interface version handler in
              let (p, q) =
                with_clients-registry new.0 r' new.1 g
                  (send_global_to_all statics peer can_view new.0 new.1 clients) (rw e at h) in
              rw⁻¹ (p, q) (get_global-added r interface version handler j l)
        ]

    -- When disable_global returns, its id finds the same global as before, put down as disabled,
    -- and every other id finds what it found before.
    pub get_global-disable_global :
        (g j : GlobalId) {r' : RegistryState H} {clients' : ClientStore peer.Client}
        → disable_global statics peer can_view g (r, clients) ≡ returns ((r', clients'), tt)
        → get_global r' j ≡ marked (global_id_eq g j) (get_global r j)
    unfolding disable_global
    get_global-disable_global g j {r'} {clients'} h = elim (Result-cases (get_global r g)) [
      | inl (x, e) ↦ elim (Bool-cases x.disabled) [
        | inl d ↦
            let p : r ≡ r' = returned (rw (e, disable_global, d) at h) in
            rw⁻¹ p (marked-same r g j (λ y f. ap (λ z. z.disabled) (same_ok y x f e) ∙ d))
        | inr d ↦
            let (p, q) =
              with_clients-registry (mark_disabled r g x) r' tt tt _
                (rw (e, disable_global, d) at h) in
            rw⁻¹ p (get_global-mark_disabled r g j x e)
      ]
      | inr (y, e) ↦
          let p : r ≡ r' = returned (rw (e, disable_global) at h) in
          rw⁻¹ p (marked-same r g j (λ x f. absurd (not_both x y f e)))
    ]
      where
        returned :
            ◌≡◌
              {A = Outcome
                ((RegistryState H × ClientStore peer.Client) × Unit {0})
                ((RegistryState H × ClientStore peer.Client) × InvalidId)}
              (returns ((r, clients), tt))
              (returns ((r', clients'), tt))
            → r ≡ r'
        returned k = cc

        same_ok : (y x : Global H) → get_global r g ≡ ok y → get_global r g ≡ ok x → y ≡ x
        same_ok y x k l = cc

        not_both :
            (x : Global H) (y : InvalidId) → get_global r g ≡ ok x → get_global r g ≡ err y → ⊥
        not_both x y k l = cc

    disabled_before :
        (g : GlobalId) {r' : RegistryState H} {clients' : ClientStore peer.Client}
        → remove_global statics peer can_view g (r, clients) ≡ returns ((r', clients'), tt)
        → (r₁ : RegistryState H) × ((cs : ClientStore peer.Client) × ((disable_global statics peer
                  can_view g
                  (r, clients)
                ≡ returns ((r₁, cs), tt))
              × (r' ≡ vacate g r₁)))
    unfolding remove_global
    disabled_before g {r'} {clients'} h =
        split (disable_global statics peer can_view g (r, clients)) h
      where
        split :
            (o : Outcome
              ((RegistryState H × ClientStore peer.Client) × Unit {0})
              ((RegistryState H × ClientStore peer.Client) × InvalidId))
            → bind_outcome (λ _ (r, cs). returns ((vacate g r, cs), tt)) o
              ≡ returns ((r', clients'), tt)
            → (r₁ : RegistryState H) × ((cs : ClientStore peer.Client) × ((o
                    ≡ returns ((r₁, cs), tt))
                  × (r' ≡ vacate g r₁)))
        split (returns ((r₁, cs), x)) k = (r₁, (cs, (refl, cc)))
        split (fails x) k = absurd cc
        split panics k = absurd cc

    -- When remove_global returns, its id finds nothing, and every other id finds what it found
    -- before.
    pub get_global-remove_global :
        (g j : GlobalId) {r' : RegistryState H} {clients' : ClientStore peer.Client}
        → remove_global statics peer can_view g (r, clients) ≡ returns ((r', clients'), tt)
        → get_global r' j ≡ (if global_id_eq g j then err invalid_id else get_global r j)
    get_global-remove_global g j h =
        let (r₁, (cs, (p, q))) = disabled_before g h in
        rw (q, get_global-vacate r₁ g j)
          (elim (Bool-cases (global_id_eq g j)) [
            | inl e ↦ rw e refl
            | inr e ↦ rw e (get_global-disable_global g j p ∙ rw e refl)
          ])
