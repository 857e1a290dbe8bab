-- ===== src/Client/Dispatch/Kept.antt =====
-- What a message does to the socket of the connection: nothing, but for the user's callback. And what
-- a failure leaves: the error is stored.
use wayland_rs.Common.{
  ℕ, ◌≡◌, refl, Bool-cases, Option-cases, Result-cases, inl, inr, Option, none, some, List, [], ◌∷◌,
  ◌==◌, get_elem?, Result, ok, err, M, ◌>>=◌, unwrap,
}
use wayland_rs.Common.Post.{Post, Post-bind, Post-unwrap}
use wayland_rs.Protocol.{Argument, Message}
use wayland_rs.Protocol.Interfaces.{
  Interface, InterfaceRef, MessageDesc, deref, same_interface_or_anonymous,
}
use wayland_rs.Map.{ObjectMap, Object, find, with_object}
use wayland_rs.Socket.{BufferedSocket}
use wayland_rs.Client.State.{
  ObjectData, dumb, uninit, user, Data, ObjectId, WaylandError, ProtocolState,
  store_and_return_error, update_object, notify_destroyed,
}
use wayland_rs.Client.Display.{handle_display_event, handle_error, handle_delete_id}
use wayland_rs.Client.Dispatch.{
  Converted, check_interface, known_object, convert_object, inserted, create_object, convert_args,
  call_event, destroy_receiver, give_data, deliver, dispatch_to, on_message,
}

-- `P` speaks of the socket.
module _ (statics : ℕ → Interface) {Sys Fd U : Type 0} (P : BufferedSocket Sys Fd → Type 0) where
  abbrev pub Stored : ProtocolState Sys Fd U → WaylandError → Type 0
  Stored t x = P t.socket × (t.last_error ≡ some x)

  abbrev Keeps : {A : Type 0} → M (ProtocolState Sys Fd U) WaylandError A → Type 0
  Keeps m = (s : ProtocolState Sys Fd U) → P s.socket → Post (λ t _. P t.socket) Stored (m s)

  update_object-Keeps : (id : ℕ) (f : Data U → Data U) → Keeps (update_object id f)
  unfolding update_object
  update_object-Keeps id f s p =
      elim (Result-cases (with_object s.map id (λ o. (record o { user = f o.user }, tt))).1) [
        | inl (x, e) ↦ rw (e, update_object, Post) p
        | inr (x, e) ↦ rw (e, update_object, Post) tt
      ]

  notify-Keeps : (d : ObjectData U) (o : ObjectId) → Keeps (notify_destroyed d o)
  unfolding notify_destroyed
  notify-Keeps dumb o s p = tt
  notify-Keeps uninit o s p = p
  notify-Keeps (user u) o s p = p

  bind-Keeps :
      {A B : Type 0} (m : M (ProtocolState Sys Fd U) WaylandError A)
      → (f : A → M (ProtocolState Sys Fd U) WaylandError B) → Keeps m
      → ((a : A) → Keeps (f a))
      → Keeps (m >>= f)
  bind-Keeps m f h k s p =
      Post-bind (λ t _. P t.socket) (λ t _. P t.socket) Stored (m s) f (h s p) (λ a t q. k a t q)

  unwrap-Keeps : {A : Type 0} (o : Option A) → Keeps (unwrap o)
  unwrap-Keeps o s p = Post-unwrap (λ t _. P t.socket) Stored o s (λ a e. p)

  check_interface-Keeps :
      (interfaces : List InterfaceRef) (o : ℕ) (object : Object (Data U))
      → Keeps (check_interface statics interfaces o object)
  unfolding check_interface store_and_return_error
  check_interface-Keeps [] o object s p = p
  check_interface-Keeps (i ∷ is) o object s p =
      elim (Bool-cases (same_interface_or_anonymous statics i object.interface)) [
        | inl e ↦ rw e p
        | inr e ↦ rw e (p, refl)
      ]

  known_object-Keeps : (o : ℕ) → Keeps (known_object statics o)
  unfolding known_object store_and_return_error
  known_object-Keeps o s p = elim (Option-cases (find s.map o)) [
    | inl e ↦ rw (e, known_object, Post) (p, refl)
    | inr (object, e) ↦ rw (e, known_object, Post) p
  ]

  convert_object-Keeps :
      (interfaces : List InterfaceRef) (o : ℕ) → Keeps (convert_object statics interfaces o)
  unfolding convert_object
  convert_object-Keeps interfaces o s p = elim (Bool-cases (o == 0)) [
    | inl e ↦ rw e p
    | inr e ↦ rw e (
        bind-Keeps (known_object statics o) _ (known_object-Keeps o)
          (λ object.
            bind-Keeps (check_interface statics interfaces o object) _
              (check_interface-Keeps interfaces o object) (λ others t q. q))
          s p)
  ]

  inserted-Keeps :
      (s : ProtocolState Sys Fd U) (id : ObjectId) (r : Result (ObjectMap (Data U)) (Unit {0}))
      → P s.socket
      → Post (λ t _. P t.socket) Stored (inserted statics s id r)
  unfolding inserted store_and_return_error
  inserted-Keeps s id (ok map) p = p
  inserted-Keeps s id (err x) p = (p, refl)

  create_object-Keeps :
      (receiver : Object (Data U)) (interface : InterfaceRef) (n : ℕ)
      → Keeps (create_object statics receiver interface n)
  unfolding create_object
  create_object-Keeps receiver interface n s p = inserted-Keeps _ _ _ p

  convert_args-Keeps :
      (receiver : Object (Data U)) (desc : MessageDesc) (interfaces : List InterfaceRef)
      → (args : List (Argument ℕ Fd)) → Keeps (convert_args statics receiver desc interfaces args)
  unfolding convert_args
  convert_args-Keeps receiver desc interfaces [] = λ s p. p
  convert_args-Keeps receiver desc interfaces (Argument.object o ∷ args) =
      bind-Keeps (convert_object statics interfaces o) _ (convert_object-Keeps interfaces o)
        (λ (id, others).
          bind-Keeps (convert_args statics receiver desc others args) _
            (convert_args-Keeps receiver desc others args) (λ rest t q. q))
  convert_args-Keeps receiver desc interfaces (Argument.new_id n ∷ args) =
      bind-Keeps (unwrap desc.child_interface) _ (unwrap-Keeps desc.child_interface) (λ interface.
        bind-Keeps (create_object statics receiver interface n) _
          (create_object-Keeps receiver interface n)
          (λ id.
            bind-Keeps (convert_args statics receiver desc interfaces args) _
              (convert_args-Keeps receiver desc interfaces args) (λ rest t q. q)))
  convert_args-Keeps receiver desc interfaces (Argument.int x ∷ args) =
      bind-Keeps _ _ (convert_args-Keeps receiver desc interfaces args) (λ rest t q. q)
  convert_args-Keeps receiver desc interfaces (Argument.uint x ∷ args) =
      bind-Keeps _ _ (convert_args-Keeps receiver desc interfaces args) (λ rest t q. q)
  convert_args-Keeps receiver desc interfaces (Argument.fixed x ∷ args) =
      bind-Keeps _ _ (convert_args-Keeps receiver desc interfaces args) (λ rest t q. q)
  convert_args-Keeps receiver desc interfaces (Argument.str x ∷ args) =
      bind-Keeps _ _ (convert_args-Keeps receiver desc interfaces args) (λ rest t q. q)
  convert_args-Keeps receiver desc interfaces (Argument.array x ∷ args) =
      bind-Keeps _ _ (convert_args-Keeps receiver desc interfaces args) (λ rest t q. q)
  convert_args-Keeps receiver desc interfaces (Argument.fd x ∷ args) =
      bind-Keeps _ _ (convert_args-Keeps receiver desc interfaces args) (λ rest t q. q)

  handle_error-Keeps : (args : List (Argument ℕ Fd)) → Keeps (handle_error statics args)
  unfolding handle_error store_and_return_error
  handle_error-Keeps (Argument.object o ∷ Argument.uint c ∷ Argument.str (some x) ∷ []) s p =
      (p, refl)
  handle_error-Keeps _ s p = tt

  handle_delete_id-Keeps : (args : List (Argument ℕ Fd)) → Keeps (handle_delete_id statics args)
  unfolding handle_delete_id
  handle_delete_id-Keeps (Argument.uint id ∷ []) s p = p
  handle_delete_id-Keeps _ s p = tt

  display-Keeps : (m : Message ℕ Fd) → Keeps (handle_display_event statics m)
  unfolding handle_display_event
  display-Keeps m s p = elim (Bool-cases (m.opcode == 0)) [
    | inl e ↦ rw e (handle_error-Keeps m.args s p)
    | inr e ↦ elim (Bool-cases (m.opcode == 1)) [
      | inl f ↦ rw (e, f) (handle_delete_id-Keeps m.args s p)
      | inr f ↦ rw (e, f) tt
    ]
  ]

  module _
      (event : U → Message ObjectId Fd → ProtocolState Sys Fd U → ProtocolState Sys Fd U × Option U)
      (calm : (u : U) (m : Message ObjectId Fd) (s : ProtocolState Sys Fd U)
        → P s.socket
        → P (event u m s).0.socket) where
    call_event-Keeps :
        (d : ObjectData U) (m : Message ObjectId Fd) → Keeps (call_event statics event d m)
    unfolding call_event
    call_event-Keeps dumb m s p = tt
    call_event-Keeps uninit m s p = tt
    call_event-Keeps (user u) m s p = calm u m s p

    destroy_receiver-Keeps :
        (desc : MessageDesc) (receiver : Object (Data U)) (id : ObjectId)
        → Keeps (destroy_receiver statics event desc receiver id)
    unfolding destroy_receiver
    destroy_receiver-Keeps desc receiver id s p = elim (Bool-cases desc.is_destructor) [
      | inl e ↦ rw e (
          bind-Keeps (update_object id.id _) _ (update_object-Keeps id.id _)
            (λ _. notify-Keeps receiver.user.user_data id) s p)
      | inr e ↦ rw e p
    ]

    give_data-Keeps :
        (child : Option ObjectId) (d : Option U) → Keeps (give_data statics event child d)
    unfolding give_data
    give_data-Keeps (some c) (some u) = update_object-Keeps c.id _
    give_data-Keeps none none = λ s p. p
    give_data-Keeps _ _ = λ s p. tt

    deliver-Keeps :
        (receiver : Object (Data U)) (desc : MessageDesc) (m : Message ℕ Fd) (c : Converted Fd)
        → Keeps (deliver statics event receiver desc m c)
    unfolding deliver
    deliver-Keeps receiver desc m c =
        bind-Keeps (call_event statics event receiver.user.user_data _) _
          (call_event-Keeps receiver.user.user_data _)
          (λ ret.
            bind-Keeps (destroy_receiver statics event desc receiver _) _
              (destroy_receiver-Keeps desc receiver _) (λ _. give_data-Keeps c.created_id ret))

    dispatch_to-Keeps :
        (receiver : Object (Data U)) (desc : MessageDesc) (m : Message ℕ Fd)
        → Keeps (dispatch_to statics event receiver desc m)
    unfolding dispatch_to
    dispatch_to-Keeps receiver desc m =
        bind-Keeps (convert_args statics receiver desc desc.arg_interfaces m.args) _
          (convert_args-Keeps receiver desc desc.arg_interfaces m.args)
          (λ c s p. elim (Bool-cases receiver.user.client_destroyed) [
            | inl e ↦ rw e p
            | inr e ↦ rw e (
                bind-Keeps (deliver statics event receiver desc m c) _
                  (deliver-Keeps receiver desc m c) (λ _ t q. q) s p)
          ])

    -- What holds of the socket, and is kept by the user's callback, is kept by every message. A
    -- message that fails stores its error.
    pub on_message-Keeps : (m : Message ℕ Fd) → Keeps (on_message statics event m)
    unfolding on_message
    on_message-Keeps m s =
        bind-Keeps (unwrap (find s.map m.sender_id)) _ (unwrap-Keeps _)
          (λ receiver.
            bind-Keeps (unwrap (get_elem? (deref statics receiver.interface).events m.opcode)) _
              (unwrap-Keeps _)
              (λ desc t p. elim (Bool-cases (m.sender_id == 1)) [
                | inl e ↦ rw e (
                    bind-Keeps (handle_display_event statics m) _ (display-Keeps m) (λ _ u q. q) t
                      p)
                | inr e ↦ rw e (dispatch_to-Keeps receiver desc m t p)
              ]))
          s
