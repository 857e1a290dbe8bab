-- ===== src/Server/Conversion/Delivered.antt =====
-- What a handler is given of a request: its arguments with ids in place of numbers.
use wayland_rs.Common.{
  arith, ℕ, ◌≡◌, sym, refl, Bool-cases, inl, inr, Option, none, some, List, [], ◌∷◌, map, ◌==◌, ok,
}
use wayland_rs.Protocol.{Argument}
use wayland_rs.Map.{ObjectMap, Object, find, insert_at}
use wayland_rs.Map.Lookup.{insert_at-Inserted}
use wayland_rs.Server.{ClientId, ServerObjectId}
use wayland_rs.Server.Conversion.{Request}

-- An argument of a handler as it stood on the wire.
abbrev pub wire_of : {Fd : Type 0} → Argument ServerObjectId Fd → Argument ℕ Fd
wire_of (Argument.int x) = Argument.int x
wire_of (Argument.uint x) = Argument.uint x
wire_of (Argument.fixed x) = Argument.fixed x
wire_of (Argument.str x) = Argument.str x
wire_of (Argument.object o) = Argument.object o.id
wire_of (Argument.new_id o) = Argument.new_id o.id
wire_of (Argument.array x) = Argument.array x
wire_of (Argument.fd x) = Argument.fd x

-- An id of an argument is one of this client.
abbrev pub OwnedArg : {Fd : Type 0} → ClientId → Argument ServerObjectId Fd → Type 0
OwnedArg c (Argument.object o) = o.client_id ≡ c
OwnedArg c (Argument.new_id o) = o.client_id ≡ c
OwnedArg c _ = Unit {0}

abbrev pub AllOwned : {Fd : Type 0} → ClientId → List (Argument ServerObjectId Fd) → Type 0
AllOwned c [] = Unit {0}
AllOwned c (a ∷ args) = OwnedArg c a × AllOwned c args

-- The object that the arguments create: the last one.
abbrev pub created_by : {Fd : Type 0} → Argument ServerObjectId Fd → Option ServerObjectId
created_by (Argument.new_id o) = some o
created_by _ = none

abbrev pub or_later : Option ServerObjectId → Option ServerObjectId → Option ServerObjectId
or_later now none = now
or_later now (some later) = some later

abbrev pub last_created : {Fd : Type 0} → List (Argument ServerObjectId Fd) → Option ServerObjectId
last_created [] = none
last_created (a ∷ args) = or_later (created_by a) (last_created args)

-- What a handler is given of the arguments of a request.
pub record Delivered {Fd : Type 0} (owner : ClientId) (args : List (Argument ℕ Fd)) (r : Request Fd)
    : Type 0 where
  pub wire : map wire_of r.args ≡ args
  pub owned : AllOwned owner r.args
  pub created : r.created_id ≡ last_created r.args

pub or_later-none : (x o : Option ServerObjectId) → x ≡ none → o ≡ or_later x o
or_later-none x none e = sym e
or_later-none x (some later) e = refl

pub or_later-some :
    (id : ServerObjectId) (o : Option ServerObjectId)
    → ◌≡◌ {A = Option ServerObjectId}
        (elim o [ none ↦ some id | some later ↦ some later ])
        (or_later (some id) o)
or_later-some id none = refl
or_later-some id (some later) = refl

-- An insertion keeps the objects that were there.
pub insert_at-kept :
    {D : Type 0} (m m' : ObjectMap D) (id : ℕ) (p : Object D)
    → insert_at m id p ≡ ok m'
    → (j : ℕ) (o : Object D) → find m j ≡ some o
    → find m' j ≡ some o
insert_at-kept m m' id p h j o e =
    let i = insert_at-Inserted m m' id p h in
    let f = i.found j in
    let u = i.unused in
    elim (Bool-cases (id == j)) [ inl q ↦ absurd (grind arith) | inr q ↦ rw (f, q) e ]
