-- ===== src/Client/Display/Effects.antt =====
-- What the events of wl_display do.
use mathlib.Core.Path.{subst}
use wayland_rs.Common.{
  ℕ, zero, suc, ◌≡◌, ◌↔◌, ◌⊎◌, refl, Option-cases, inl, inr, Bool, true, false, Option, none, some,
  List, [], ◌∷◌, arith, ◌==◌, if◌then◌else◌, get_elem?, Result, ok, err, Outcome, fails, panics,
}
use wayland_rs.Protocol.{AllowNull, non_null, Argument, ArgumentType, Message}
use wayland_rs.Protocol.Signature.{HasType, Fits}
use wayland_rs.Protocol.Interfaces.{Interface, MessageDesc, wl_display_interface}
use wayland_rs.Map.{ObjectMap, Object, find, with_object}
use wayland_rs.Map.Lookup.{find-remove, with_object_lem, updated, answer}
use wayland_rs.Client.State.{Data, WaylandError, ProtocolState, store_and_return_error}
use wayland_rs.Client.Display.{
  handle_display_event, handle_error, handle_delete_id, mark_deleted, settle, delete_id,
}

module _ {U : Type 0} where
  -- What is left of an object that the server has deleted.
  abbrev pub deleted : Option (Object (Data U)) → Option (Object (Data U))
  deleted none = none
  deleted (some o) =
      if o.user.client_destroyed
      then none
      else some (record o { user = record o.user { server_destroyed = true } })

  find-settle :
      (m : ObjectMap (Data U)) (id j : ℕ) (o : Option (Object (Data U)))
      → (r : ObjectMap (Data U) × Result Bool (Unit {0})) → r.1 ≡ answer mark_deleted o
      → find r.0 j ≡ (if id == j then updated mark_deleted o else find m j)
      → find m id ≡ o
      → find (settle id r) j ≡ (if id == j then deleted o else find m j)
  unfolding settle mark_deleted
  find-settle m id j none (map, ok b) p q e = absurd (ground arith)
  find-settle m id j none (map, err x) p q e = q
  find-settle m id j (some o) (map, err x) p q e = absurd (ground arith)
  find-settle m id j (some o) (map, ok true) p q e =
      let gone : o.user.client_destroyed ≡ true = ground arith in
      ground (arith, find-remove map id j)
  find-settle m id j (some o) (map, ok false) p q e =
      let here : o.user.client_destroyed ≡ false = ground arith in ground arith

  -- `delete_id` removes the object if the client has destroyed it too, and otherwise marks it as
  -- destroyed by the server; an unknown id changes nothing. Every other lookup is as before.
  pub find-delete_id :
      (m : ObjectMap (Data U)) (id j : ℕ)
      → find (delete_id m id) j ≡ (if id == j then deleted (find m id) else find m j)
  unfolding delete_id
  find-delete_id m id j =
      let (p, q) = with_object_lem m id j mark_deleted in
      find-settle m id j (find m id) (with_object m id mark_deleted) p q refl

module _ {Fd : Type 0} where
  -- Null text in the place of the message of an error.
  abbrev pub IsNullError : Message ℕ Fd → Type 0
  IsNullError m =
      (m.opcode ≡ 0)
      × (o : ℕ) × (c : ℕ) × (m.args ≡ Argument.object o ∷ Argument.uint c ∷ Argument.str none ∷ [])

  is_object :
      {a : Argument ℕ Fd} {n : AllowNull}
      → HasType a (ArgumentType.object n)
      → (o : ℕ) × (a ≡ Argument.object o)
  is_object HasType.object = (_, refl)

  is_uint : {a : Argument ℕ Fd} → HasType a ArgumentType.uint → (u : ℕ) × (a ≡ Argument.uint u)
  is_uint HasType.uint = (_, refl)

  is_str :
      {a : Argument ℕ Fd} {n : AllowNull}
      → HasType a (ArgumentType.str n)
      → (t : Option (List ℕ)) × (a ≡ Argument.str t)
  is_str HasType.str = (_, refl)

  -- The arguments of the two events.
  error_args :
      (args : List (Argument ℕ Fd))
      → Fits
          (ArgumentType.object non_null ∷ ArgumentType.uint ∷ ArgumentType.str non_null ∷ [])
          args
      → (o : ℕ) × (c : ℕ) × (t : Option (List ℕ)) × (args
          ≡ Argument.object o ∷ Argument.uint c ∷ Argument.str t ∷ [])
  error_args [] f = absurd f
  error_args (a ∷ []) f = absurd f.1
  error_args (a ∷ b ∷ []) f = absurd f.1.1
  error_args (a ∷ b ∷ c ∷ []) (p, (q, (r, u))) =
      let (o, x) = is_object p in
      let (n, y) = is_uint q in let (t, z) = is_str r in (o, n, t, rw (x, y, z))
  error_args (a ∷ b ∷ c ∷ d ∷ args) f = absurd f.1.1.1

  delete_args :
      (args : List (Argument ℕ Fd))
      → Fits (ArgumentType.uint ∷ []) args
      → (id : ℕ) × (args ≡ Argument.uint id ∷ [])
  delete_args [] f = absurd f
  delete_args (a ∷ []) (p, u) = let (n, x) = is_uint p in (n, rw x)
  delete_args (a ∷ b ∷ args) f = absurd f.1

-- The two events, by their opcodes.
display_cases :
    (opcode : ℕ) (desc : MessageDesc)
    → get_elem? wl_display_interface.events opcode ≡ some desc
    → ((opcode ≡ 0)
        × (desc.signature
            ≡ ArgumentType.object non_null ∷ ArgumentType.uint ∷ ArgumentType.str non_null ∷ []))
      ⊎ ((opcode ≡ 1) × (desc.signature ≡ ArgumentType.uint ∷ []))
unfolding wl_display_interface
display_cases zero desc h = inl (refl, ground arith)
display_cases (suc zero) desc h = inr (refl, ground arith)
display_cases (suc (suc n)) desc h = absurd (ground arith)

module _ (statics : ℕ → Interface) {Sys Fd U : Type 0} where
  -- What the display's handler may do: fail with the stored error, delete an id, or panic.
  error_panics :
      (s : ProtocolState Sys Fd U) (args : List (Argument ℕ Fd))
      → Fits
          (ArgumentType.object non_null ∷ ArgumentType.uint ∷ ArgumentType.str non_null ∷ [])
          args
      → (handle_error statics args s ≡ panics) ↔ (
          (o : ℕ) × (c : ℕ) × (args ≡ Argument.object o ∷ Argument.uint c ∷ Argument.str none ∷ []))
  unfolding handle_error store_and_return_error
  error_panics s args f = (
    λ h.
        let (o, c, t, x) = error_args args f in
        elim (Option-cases t) [
          | inl p ↦ (o, c, rw (x, p))
          | inr (text, p) ↦ absurd (panics-ne _ (rw (x, p) at h))
        ],
    λ (o, c, x). rw x,
  )
    where
      panics-ne :
          (q : ProtocolState Sys Fd U × WaylandError)
          → ◌≡◌
              {A = Outcome
                (ProtocolState Sys Fd U × Unit {0})
                (ProtocolState Sys Fd U × WaylandError)}
              (fails q)
              panics
          → ⊥
      panics-ne q h = ground arith

  -- On an event of wl_display whose arguments fit its signature, the handler panics exactly when the
  -- event is an error with null text.
  pub handle_display_event-panics :
      (m : Message ℕ Fd) (s : ProtocolState Sys Fd U) (desc : MessageDesc)
      → get_elem? wl_display_interface.events m.opcode ≡ some desc
      → Fits desc.signature m.args
      → (handle_display_event statics m s ≡ panics) ↔ IsNullError m
  unfolding handle_display_event handle_delete_id
  handle_display_event-panics m s desc h f = elim (display_cases m.opcode desc h) [
    | inl (zeroth, types) ↦
        let ends = error_panics s m.args (subst (λ t. Fits t m.args) types f) in
        let first : (m.opcode == 0) ≡ true = ground arith in
        (
          λ p. let (o, c, x) = ends.0 (rw first at p) in (zeroth, o, c, x),
          λ (z, o, c, x). rw first (ends.1 (o, c, x)),
        )
    | inr (one, types) ↦
        let (id, x) = delete_args m.args (subst (λ t. Fits t m.args) types f) in
        let second : (m.opcode == 0) ≡ false = ground arith in
        let third : (m.opcode == 1) ≡ true = ground arith in
        (
          λ p. absurd (ground (arith, rw (second, third, x) at p)),
          λ (z, o, c, y). absurd (omega (arith, one, z)),
        )
  ]
