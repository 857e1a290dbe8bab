-- ===== src/Client/State/Given.antt =====
-- The data of an object: what `set_data` changes, and for which ids.
use wayland_rs.Common.{
  ◌≡◌, refl, ap, ◌∙◌, Bool, true, false, ◌&&◌, Bool-cases, inl, inr, Option, none, some, arith,
  ◌==◌, if◌then◌else◌, Result, ok, err,
}
use wayland_rs.Map.{Object, find}
use wayland_rs.Map.Lookup.{answer, updated, with_object_lem}
use wayland_rs.Client.State.{
  ObjectData, user, Data, ObjectId, InvalidId, invalid_id, ProtocolState, found, get_object,
  get_data, set_data, replace_data,
}

module _ {U : Type 0} where
  -- The data that an id finds once the id `o` has been given `u`.
  abbrev pub given : Bool → U → Result (ObjectData U) InvalidId → Result (ObjectData U) InvalidId
  given true u (ok d) = ok (user u)
  given _ u r = r

  -- What an id finds at its place.
  abbrev data_at : Option (Object (Data U)) → ObjectId → Result (ObjectData U) InvalidId
  data_at none j = err invalid_id
  data_at (some object) j =
      if object.user.serial == j.serial then ok object.user.user_data else err invalid_id

  -- Whether a place is that of an id.
  abbrev owned : Option (Object (Data U)) → ObjectId → Bool
  owned none o = false
  owned (some object) o = object.user.serial == o.serial

  data_at-updated :
      (p : Option (Object (Data U))) (o j : ObjectId) (u : U)
      → data_at (updated (replace_data o u) p) j ≡ given (owned p o) u (data_at p j)
  unfolding replace_data
  data_at-updated none o j u = refl
  data_at-updated (some object) o j u = ground arith

  -- Whether `set_data` accepts an id.
  abbrev pub accepts : Result (ObjectData U) InvalidId → Bool
  accepts (ok d) = true
  accepts (err x) = false

  accepts-data_at :
      (p : Option (Object (Data U))) (o : ObjectId) → accepts (data_at p o) ≡ owned p o
  accepts-data_at none o = refl
  accepts-data_at (some object) o = ground arith

  answer-data_at :
      (p : Option (Object (Data U))) (o : ObjectId) (u : U)
      → ◌≡◌ {A = Result (Unit {0}) InvalidId}
          (elim (answer (replace_data o u) p) [ ok x ↦ x | err x ↦ err invalid_id ])
          (if accepts (data_at p o) then ok tt else err invalid_id)
  unfolding replace_data
  answer-data_at none o u = refl
  answer-data_at (some object) o u = ground arith

module _ {Sys Fd U : Type 0} where
  get_data-at :
      (s : ProtocolState Sys Fd U) (j : ObjectId) → get_data s j ≡ data_at (find s.map j.id) j
  unfolding get_data get_object found
  get_data-at s j = ground arith

  -- set_data succeeds exactly when get_data finds the id. Then every id with its number that
  -- get_data finds has the new data; every other result of get_data is as before.
  pub get_data-set_data :
      (s : ProtocolState Sys Fd U) (o j : ObjectId) (u : U)
      → ((set_data s o u).1 ≡ (if accepts (get_data s o) then ok tt else err invalid_id))
        × (get_data (set_data s o u).0 j
            ≡ given (o.id == j.id && accepts (get_data s o)) u (get_data s j))
  unfolding set_data replace_data
  get_data-set_data s o j u =
      let (r, at) = with_object_lem s.map o.id j.id (replace_data o u) in
      (
        ap settled r ∙ rw (get_data-at s o) (answer-data_at (find s.map o.id) o u),
        get_data-at (set_data s o u).0 j
            ∙ ap (λ p. data_at p j) at
            ∙ rw (get_data-at s o, get_data-at s j)
                (elim (Bool-cases (o.id == j.id)) [
                  | inl e ↦
                      let same : find s.map j.id ≡ find s.map o.id =
                        ap (find s.map) (ground arith) in
                      rw (e, accepts-data_at (find s.map o.id) o, same)
                        (data_at-updated (find s.map o.id) o j u)
                  | inr e ↦ rw e refl
                ]),
      )
    where
      settled : Result (Result (Unit {0}) InvalidId) (Unit {0}) → Result (Unit {0}) InvalidId
      settled x = elim x [ ok y ↦ y | err y ↦ err invalid_id ]
