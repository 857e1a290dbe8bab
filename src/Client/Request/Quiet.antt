-- ===== src/Client/Request/Quiet.antt =====
-- The steps of a request before it writes leave the socket as it is, and make of the arguments what
-- is then sent.
use wayland_rs.Common.{
  ℕ, ◌+◌, ◌≡◌, refl, ap, Bool-cases, Result-cases, inl, inr, Bool, Option, none, some, List, [],
  ◌∷◌, map, ◌==◌, get_elem?, M, ◌>>=◌, unwrap, assert, pure,
}
use wayland_rs.Common.Post.{Post, Post-bind, Post-unwrap, Post-assert}
use wayland_rs.Protocol.{Argument}
use wayland_rs.Protocol.Interfaces.{Interface, InterfaceRef, MessageDesc, same_interface}
use wayland_rs.Map.{with_object}
use wayland_rs.Socket.{BufferedSocket}
use wayland_rs.Client.State.{
  Data, ObjectId, InvalidId, ProtocolState, next_serial, get_object, lookup, update_object,
}
use wayland_rs.Client.Request.{
  any_new_id, allows_null, next_interface, chosen_child, child_spec_of, create_child, placeholder,
  fill_placeholders, check_object, resolve_args, child_or_null,
}

-- An argument with the child's id in place of its placeholder.
abbrev pub filled : {RawFd : Type 0} → ObjectId → Argument ObjectId RawFd → Argument ObjectId RawFd
filled c (Argument.new_id p) = Argument.new_id c
filled c a = a

-- An argument with object ids as numbers.
abbrev pub numbered : {RawFd : Type 0} → Argument ObjectId RawFd → Argument ℕ RawFd
numbered (Argument.int x) = Argument.int x
numbered (Argument.uint x) = Argument.uint x
numbered (Argument.fixed x) = Argument.fixed x
numbered (Argument.str x) = Argument.str x
numbered (Argument.object o) = Argument.object o.id
numbered (Argument.new_id o) = Argument.new_id o.id
numbered (Argument.array x) = Argument.array x
numbered (Argument.fd x) = Argument.fd x

-- An argument as it is sent by a request that returns the id `c`.
abbrev pub wire_arg : {RawFd : Type 0} → ObjectId → Argument ObjectId RawFd → Argument ℕ RawFd
wire_arg c a = numbered (filled c a)

pub map-wire_arg :
    {RawFd : Type 0} (c : ObjectId) (args : List (Argument ObjectId RawFd))
    → map numbered (map (filled c) args) ≡ map (wire_arg c) args
map-wire_arg c [] = refl
map-wire_arg c (a ∷ args) = ap (λ l. wire_arg c a ∷ l) (map-wire_arg c args)

abbrev pub Any : {A : Type 0} → A → Type 0
Any a = Unit {0}

-- Operations that leave the socket alone, with a property of their result.
module _ {Sys Fd U : Type 0} (b : BufferedSocket Sys Fd) where
  abbrev pub Same : ProtocolState Sys Fd U → InvalidId → Type 0
  Same t x = t.socket ≡ b

  abbrev pub Quiet : {A : Type 0} → (A → Type 0) → M (ProtocolState Sys Fd U) InvalidId A → Type 0
  Quiet Q m =
      (s : ProtocolState Sys Fd U) → s.socket ≡ b → Post (λ t a. (t.socket ≡ b) × Q a) Same (m s)

  bind-Quiet :
      {A B : Type 0} (P : A → Type 0) (Q : B → Type 0) (m : M (ProtocolState Sys Fd U) InvalidId A)
      → (f : A → M (ProtocolState Sys Fd U) InvalidId B) → Quiet P m
      → ((a : A) → P a → Quiet Q (f a))
      → Quiet Q (m >>= f)
  bind-Quiet P Q m f h k s p =
      Post-bind (λ t a. (t.socket ≡ b) × P a) (λ t a. (t.socket ≡ b) × Q a) Same (m s) f (h s p)
        (λ a t q. k a q.1 t q.0)

  unwrap-Quiet : {A : Type 0} (o : Option A) → Quiet (λ a. o ≡ some a) (unwrap o)
  unwrap-Quiet o s p = Post-unwrap (λ t a. (t.socket ≡ b) × (o ≡ some a)) Same o s (λ a e. (p, e))

  assert-Quiet : (c : Bool) → Quiet Any (assert c)
  assert-Quiet c s p = Post-assert (λ t a. (t.socket ≡ b) × Any a) Same c s (λ e. (p, tt))

  lookup-Quiet : (o : ObjectId) → Quiet Any (lookup o)
  unfolding lookup
  lookup-Quiet o s p = elim (Result-cases (get_object s o)) [
    | inl (object, e) ↦ rw (e, lookup, Post) (p, tt)
    | inr (x, e) ↦ rw (e, lookup, Post) p
  ]

  update-Quiet : (id : ℕ) (f : Data U → Data U) → Quiet Any (update_object id f)
  unfolding update_object
  update-Quiet id f s p =
      elim (Result-cases (with_object s.map id (λ o. (record o { user = f o.user }, tt))).1) [
        | inl (x, e) ↦ rw (e, update_object, Post) (p, tt)
        | inr (x, e) ↦ rw (e, update_object, Post) tt
      ]

  pub child_spec-Quiet :
      (statics : ℕ → Interface) (desc : MessageDesc) (v : ℕ) (spec : Option (InterfaceRef × ℕ))
      → Quiet Any (child_spec_of statics desc v spec)
  unfolding child_spec_of
  child_spec-Quiet statics desc v spec s p = elim (Bool-cases (any_new_id desc.signature)) [
    | inl e ↦ rw e (chosen-Quiet spec s p)
    | inr e ↦ rw e (p, tt)
  ]
    where
      given-Quiet :
          (iface : InterfaceRef) (w : ℕ) (c : Option InterfaceRef)
          → desc.child_interface ≡ c
          → Quiet Any (chosen_child statics desc v (some (iface, w)))
      given-Quiet iface w none e s p = rw (e, chosen_child, Post) (p, tt)
      given-Quiet iface w (some i) e s p =
          rw (e, chosen_child)
            (bind-Quiet Any Any (assert (same_interface statics i iface)) _ (assert-Quiet _)
              (λ _ _. bind-Quiet Any Any (assert (w == v)) _ (assert-Quiet _) (λ _ _ t q. (q, tt)))
              s p)

      taken-Quiet :
          (c : Option InterfaceRef)
          → desc.child_interface ≡ c
          → Quiet Any (chosen_child statics desc v none)
      taken-Quiet none e s p = rw (e, chosen_child, Post) tt
      taken-Quiet (some i) e s p = rw (e, chosen_child, Post) (p, tt)

      chosen-Quiet :
          (spec : Option (InterfaceRef × ℕ)) → Quiet Any (chosen_child statics desc v spec)
      chosen-Quiet none = taken-Quiet desc.child_interface refl
      chosen-Quiet (some (i, w)) = given-Quiet i w desc.child_interface refl

  pub create_child-Quiet :
      (d : Option U) (spec : Option (InterfaceRef × ℕ)) → Quiet Any (create_child d spec)
  unfolding create_child next_serial
  create_child-Quiet d none s p = (p, tt)
  create_child-Quiet d (some (iface, v)) s p =
      bind-Quiet (λ u. d ≡ some u) Any (unwrap d) _ (unwrap-Quiet d)
        (λ u _. bind-Quiet Any Any (update_object _ _) _ (update-Quiet _ _) (λ _ _ t q. (q, tt))) _
        p

  module _ (statics : ℕ → Interface) (desc : MessageDesc) where
    check-Quiet :
        (i : ℕ) (expected : InterfaceRef) (o : ObjectId)
        → Quiet Any (check_object statics desc i expected o)
    unfolding check_object
    check-Quiet i expected o s p = elim (Bool-cases (o.id == 0)) [
      | inl e ↦ rw e (
          bind-Quiet _ Any (unwrap (allows_null (get_elem? desc.signature i))) _ (unwrap-Quiet _)
            (λ allowed _. assert-Quiet allowed) s p)
      | inr e ↦
          rw e (bind-Quiet Any Any (lookup o) _ (lookup-Quiet o) (λ object _. assert-Quiet _) s p)
    ]

  module _ {RawFd : Type 0} where
    placeholder-Quiet :
        (child : Option ObjectId) (a : Argument ObjectId RawFd)
        → Quiet (λ x. x ≡ filled (child_or_null child) a) (placeholder child a)
    unfolding placeholder child_or_null
    placeholder-Quiet none (Argument.new_id p) =
        bind-Quiet Any _ (assert (p.id == 0)) _ (assert-Quiet _) (λ _ _ t q. tt)
    placeholder-Quiet (some c) (Argument.new_id p) =
        bind-Quiet Any _ (assert (p.id == 0)) _ (assert-Quiet _) (λ _ _ t q. (q, refl))
    placeholder-Quiet child (Argument.int x) = λ s p. (p, refl)
    placeholder-Quiet child (Argument.uint x) = λ s p. (p, refl)
    placeholder-Quiet child (Argument.fixed x) = λ s p. (p, refl)
    placeholder-Quiet child (Argument.str x) = λ s p. (p, refl)
    placeholder-Quiet child (Argument.object x) = λ s p. (p, refl)
    placeholder-Quiet child (Argument.array x) = λ s p. (p, refl)
    placeholder-Quiet child (Argument.fd x) = λ s p. (p, refl)

    pub fill-Quiet :
        (child : Option ObjectId) (args : List (Argument ObjectId RawFd))
        → Quiet (λ xs. xs ≡ map (filled (child_or_null child)) args) (fill_placeholders child args)
    unfolding fill_placeholders
    fill-Quiet child [] = λ s p. (p, refl)
    fill-Quiet child (a ∷ args) =
        bind-Quiet _ _ (placeholder child a) _ (placeholder-Quiet child a) (λ x e.
          bind-Quiet _ _ (fill_placeholders child args) _ (fill-Quiet child args)
            (λ xs f t q. (q, rw (e, f))))

    module _ (statics : ℕ → Interface) (desc : MessageDesc) where
      -- The tail of a list whose first argument is `a` on the wire.
      cons-Quiet :
          (a : Argument ObjectId RawFd) (args : List (Argument ObjectId RawFd))
          → (m : M (ProtocolState Sys Fd U) InvalidId (List (Argument ℕ RawFd)))
          → Quiet (λ xs. xs ≡ map numbered args) m
          → Quiet (λ xs. xs ≡ map numbered (a ∷ args)) (m >>= λ rest. pure (numbered a ∷ rest))
      cons-Quiet a args m h = bind-Quiet _ _ m _ h (λ xs e t q. (q, ap (λ l. numbered a ∷ l) e))

      pub resolve-Quiet :
          (i : ℕ) (interfaces : List InterfaceRef) (args : List (Argument ObjectId RawFd))
          → Quiet (λ xs. xs ≡ map numbered args) (resolve_args statics desc i interfaces args)
      unfolding resolve_args
      resolve-Quiet i interfaces [] = λ s p. (p, refl)
      resolve-Quiet i interfaces (Argument.object o ∷ args) =
          bind-Quiet _ _ (unwrap (next_interface interfaces)) _ (unwrap-Quiet _)
            (λ (expected, others) _.
              bind-Quiet Any _ (check_object statics desc i expected o) _
                (check-Quiet statics desc i expected o)
                (λ _ _. cons-Quiet (Argument.object o) args _ (resolve-Quiet (i + 1) others args)))
      resolve-Quiet i interfaces (Argument.new_id n ∷ args) =
          cons-Quiet (Argument.new_id n) args _ (resolve-Quiet (i + 1) interfaces args)
      resolve-Quiet i interfaces (Argument.int x ∷ args) =
          cons-Quiet (Argument.int x) args _ (resolve-Quiet (i + 1) interfaces args)
      resolve-Quiet i interfaces (Argument.uint x ∷ args) =
          cons-Quiet (Argument.uint x) args _ (resolve-Quiet (i + 1) interfaces args)
      resolve-Quiet i interfaces (Argument.fixed x ∷ args) =
          cons-Quiet (Argument.fixed x) args _ (resolve-Quiet (i + 1) interfaces args)
      resolve-Quiet i interfaces (Argument.str x ∷ args) =
          cons-Quiet (Argument.str x) args _ (resolve-Quiet (i + 1) interfaces args)
      resolve-Quiet i interfaces (Argument.array x ∷ args) =
          cons-Quiet (Argument.array x) args _ (resolve-Quiet (i + 1) interfaces args)
      resolve-Quiet i interfaces (Argument.fd x ∷ args) =
          cons-Quiet (Argument.fd x) args _ (resolve-Quiet (i + 1) interfaces args)
