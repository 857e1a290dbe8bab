-- ===== src/Client/Request/Created.antt =====
-- The object that a request creates: under a new id, found by it, with the data of the caller.
use wayland_rs.Common.{
  ℕ, ◌+◌, ◌-◌, ◌%◌, ◌^◌, ◌<◌, ◌≡◌, refl, ap, ◌∙◌, false, Bool-cases, inl, inr, none, some, arith,
  ◌==◌, if◌then◌else◌, length, ok, Outcome, returns,
}
use wayland_rs.Protocol.Interfaces.{InterfaceRef}
use wayland_rs.Map.{Object, server_id_limit, find, with_object, client_insert_new}
use wayland_rs.Map.Lookup.{answer, updated, with_object_lem}
use wayland_rs.Map.Fresh.{client_insert_new_lem}
use wayland_rs.Client.State.{
  dumb, user, Data, ObjectId, InvalidId, ProtocolState, next_serial, update_object,
}
use wayland_rs.Client.Request.{create_child}

-- The object that a request is to create.
abbrev pub child_object : {U : Type 0} → InterfaceRef → ℕ → U → ℕ → Object (Data U)
child_object iface version u serial = record {
  interface = iface;
  version = version;
  user = record {
    client_destroyed = false;
    server_destroyed = false;
    user_data = user u;
    serial = serial;
  };
}

same : {A : Type 0} (n : ℕ) (a b : A) → (if n == n then a else b) ≡ a
same n a b = ground arith

once :
    {A : Type 0} (a b c d : A) (id j : ℕ)
    → b ≡ (if id == j then c else d)
    → (if id == j then a else b) ≡ (if id == j then a else d)
once a b c d id j h = elim (Bool-cases (id == j)) [
  | inl e ↦ rw e refl
  | inr e ↦ rw e (h ∙ rw e refl)
]

module _ {Sys Fd U : Type 0} where
  -- The effect of creating it under the id `c`.
  pub record Created (iface : InterfaceRef) (version : ℕ) (u : U) (s t : ProtocolState Sys Fd U)
      (c : ObjectId) : Type 0 where
    pub serial : c.serial ≡ (s.last_serial + 1) % 2 ^ 32
    pub last_serial : t.last_serial ≡ c.serial
    pub interface : c.interface ≡ iface
    pub unused : find s.map c.id ≡ none
    pub nonnull : 0 < c.id
    pub in_client_range : c.id < server_id_limit
    pub found :
        (j : ℕ)
        → find t.map j
          ≡ (if c.id == j then some (child_object iface version u c.serial) else find s.map j)
    pub same_socket : t.socket ≡ s.socket
    pub same_error : t.last_error ≡ s.last_error

  -- An update of an object that is there does not panic.
  update_object-found :
      {E : Type 0} (id : ℕ) (f : Data U → Data U) (s : ProtocolState Sys Fd U) (o : Object (Data U))
      → find s.map id ≡ some o
      → (t : ProtocolState Sys Fd U) × (◌≡◌
          {A = Outcome (ProtocolState Sys Fd U × Unit {0}) (ProtocolState Sys Fd U × E)}
          (update_object id f s)
          (returns (t, tt)))
        × ((j : ℕ)
            → find t.map j
              ≡ (if id == j then some (record o { user = f o.user }) else find s.map j))
        × (t.socket ≡ s.socket)
        × (t.last_error ≡ s.last_error)
        × (t.last_serial ≡ s.last_serial)
  unfolding update_object
  update_object-found id f s o h =
      let g : Object (Data U) → Object (Data U) × Unit {0} =
        λ o. (record o { user = f o.user }, tt) in
      let e : (with_object s.map id g).1 ≡ ok tt =
        (with_object_lem s.map id id g).0 ∙ ap (answer g) h in
      (
        record s { map = (with_object s.map id g).0 },
        rw (e, update_object) refl,
        λ j.
            (with_object_lem s.map id j g).1
            ∙ ap (λ x. if id == j then updated g x else find s.map j) h,
        refl,
        refl,
        refl,
      )

  -- Where the client vector has room for one more id, creating a child with data never fails or
  -- panics: it returns an id that was not in use and lies in the client's range, with the next
  -- serial; the id finds the new object with the caller's data, every other id what it found
  -- before, and the socket and the last error stay.
  pub create_child-Created :
      (s : ProtocolState Sys Fd U) (u : U) (iface : InterfaceRef) (version : ℕ)
      → length s.map.client_objects < server_id_limit - 1
      → (t : ProtocolState Sys Fd U) × (c : ObjectId) × (create_child
            (some u)
            (some (iface, version))
            s
          ≡ returns (t, some c))
        × Created iface version u s t c
  unfolding create_child next_serial
  create_child-Created s u iface version room =
      let serial = (s.last_serial + 1) % 2 ^ 32 in
      let dumb_object : Object (Data U) = record {
        interface = iface;
        version = version;
        user = record {
          client_destroyed = false;
          server_destroyed = false;
          user_data = dumb;
          serial = serial;
        };
      } in
      let (fresh, range) = client_insert_new_lem s.map dumb_object room in
      let (map, id) = client_insert_new s.map dumb_object in
      let inserted : ProtocolState Sys Fd U = record s { map = map; last_serial = serial } in
      let here : find map id ≡ some dumb_object = fresh.found id ∙ same id _ _ in
      let (t, e, at, socket, error, last) =
        update_object-found {E = InvalidId} id (λ d. record d { user_data = user u }) inserted
          dumb_object here in
      (
        t,
        record { serial = serial; id = id; interface = iface },
        rw e refl,
        record {
          serial = refl;
          last_serial = last;
          interface = refl;
          unused = fresh.unused;
          nonnull = fresh.nonnull;
          in_client_range = range;
          found = λ j. at j ∙ once _ _ _ _ id j (fresh.found j);
          same_socket = socket;
          same_error = error;
        },
      )
