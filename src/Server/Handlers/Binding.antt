-- ===== src/Server/Handlers/Binding.antt =====
-- A `bind` request on a registry: when the server answers it, and when it panics.
use wayland_rs.Common.{
  ℕ, arith, ◌≡◌, ◌↔◌, refl, sym, ◌∙◌, Bool, Option, none, some, List, [], ◌∷◌, Result, ok, err,
  Outcome, returns, panics, ◌+◌, ◌%◌, ◌^◌,
}
use wayland_rs.Protocol.{Argument, Message}
use wayland_rs.Protocol.Interfaces.{InterfaceRef}
use wayland_rs.Map.{ObjectMap}
use wayland_rs.Server.{ClientId, GlobalId, ServerObjectId}
use wayland_rs.Server.Client.{
  ServerData, ServerText, DisplayError, invalid_object_error, bad_new_id, invalid_binding, Host,
  Client, next_client_serial,
}
use wayland_rs.Server.Sending.{post_display_error}
use wayland_rs.Server.Sending.Posted.{HasDisplay, post_display_error-Posted}
use wayland_rs.Server.Registry.{RegistryState}
use wayland_rs.Server.Handlers.{
  not_bound, bound, bind_checked, bind_request, handle_registry_request,
}

-- An operation that gives a result.
abbrev Runs : {A X : Type 0} → Outcome A X → Type 0
Runs {A} o = (a : A) × (o ≡ returns a)

runs : {A X : Type 0} (o : Outcome A X) → Runs o → o ≡ panics → ⊥
runs o (a, e) p = let clash : returns a ≡ panics = sym e ∙ p in ground arith

module _ {Fd : Type 0} (host : Host ℕ Fd) where
  open host use {statics, kernel}
  open kernel use {Sys}

  -- The `bind` request, with what it may carry for its arguments.
  abbrev pub bind_message : ℕ → ℕ → Option (List ℕ) → ℕ → ℕ → Message ℕ Fd
  bind_message registry name interface_name version new_id = record {
    sender_id = registry;
    opcode = 0;
    args =
        Argument.uint name
        ∷ Argument.str interface_name
        ∷ Argument.uint version
        ∷ Argument.new_id new_id
        ∷ [];
  }

  module _ {U V H : Type 0} (can_view : H → ClientId → V → GlobalId → Bool) where
    module _ (c : Client Sys Fd U V) (display : HasDisplay host c) where
      refused_binding :
          (error : DisplayError) (text : ServerText)
          → Runs (not_bound host {H = H} can_view (post_display_error host error text c))
      unfolding not_bound
      refused_binding error text =
          let (t, e, p) = post_display_error-Posted host c display error text in
          ((t, none), rw e refl)

      bound-Runs :
          (id : ServerObjectId) (g : GlobalId) (handler : H)
          → (r : Result (ObjectMap (ServerData U)) (Unit {0}))
          → Runs (bound host can_view c id g handler r)
      unfolding bound
      bound-Runs id g handler (ok map) = (_, refl)
      bound-Runs id g handler (err x) = refused_binding invalid_object_error (bad_new_id id.id)

    module _ (c : Client Sys Fd U V) (display : HasDisplay host c) where
      bind_checked-Runs :
          (name : ℕ) (interface_name : List ℕ) (version new_id : ℕ)
          → (o : Option (InterfaceRef × (GlobalId × H)))
          → Runs (bind_checked host can_view c name interface_name version new_id o)
      unfolding bind_checked next_client_serial
      bind_checked-Runs name interface_name version new_id none =
          refused_binding c display invalid_object_error
            (invalid_binding interface_name version name)
      bind_checked-Runs name interface_name version new_id (some (interface, (g, handler))) =
          bound-Runs (record c { last_serial = (c.last_serial + 1) % 2 ^ 32 }) display _ g handler _

      -- A `bind` request of the right form, on a client whose id 1 is its wl_display, makes the
      -- server panic exactly when its interface name is the null string.
      pub handle_registry_request_panics_iff :
          (r : RegistryState H) (registry name : ℕ) (interface_name : Option (List ℕ))
          → (version new_id : ℕ)
          → (handle_registry_request host can_view r
                (bind_message registry name interface_name version new_id)
                c
              ≡ panics)
            ↔ (interface_name ≡ none)
      unfolding handle_registry_request bind_request
      handle_registry_request_panics_iff r registry name none version new_id =
          (λ e. refl, λ e. refl)
      handle_registry_request_panics_iff r registry name (some interface_name) version new_id = (
        λ e. absurd (runs _ (bind_checked-Runs name interface_name version new_id _) e),
        λ e. absurd (ground arith),
      )
