-- ===== src/Globals/Contents.antt =====
-- Which globals are in the list, and which versions `bind` chooses.
use mathlib.Core.Path.{subst}
use Prim.Native.Nat.{min}
use wayland_rs.Common.{
  ℕ, ◌≤◌, ◌≡◌, ◌≢◌, ◌↔◌, ◌⊎◌, refl, sym, ap, ◌∙◌, inl, inr, true, Bool-cases, Option, none, some,
  List, [], ◌∷◌, ◌++◌, arith, ltb, ◌==◌, bytes_eq, returns,
}
use wayland_rs.Map.Iterate.{In, In-append, In-append_left, In-append_right}
use wayland_rs.Protocol.Interfaces.{Interface}
use wayland_rs.Globals.{
  Global, RegistryEvent, announced, withdrawn, retain_others, registry_event, first_named,
  bind_version, bind,
}

-- The list after some events, the first one first.
abbrev pub after_events : List RegistryEvent → List Global → List Global
after_events [] gs = gs
after_events (e ∷ es) gs = after_events es (registry_event e gs)

-- No event withdraws a global.
abbrev pub Kept : Global → List RegistryEvent → Type 0
Kept g [] = Unit {0}
Kept g (announced h ∷ es) = Kept g es
Kept g (withdrawn n ∷ es) = (g.name ≢ n) × Kept g es

-- An event announces a global, and none after it withdraws it.
abbrev pub Announced : Global → List RegistryEvent → Type 0
Announced g [] = ⊥
Announced g (e ∷ es) = ((e ≡ announced g) × Kept g es) ⊎ Announced g es

retain_others-In :
    (g : Global) (n : ℕ) (gs : List Global) → In g gs → g.name ≢ n → In g (retain_others n gs)
unfolding retain_others
retain_others-In g n [] h d = absurd h
retain_others-In g n (x ∷ gs) (inl e) d = elim (Bool-cases (x.name == n)) [
  | inl z ↦ absurd (d (ap (λ y. y.name) (sym e) ∙ ground arith))
  | inr z ↦ rw z (inl e)
]
retain_others-In g n (x ∷ gs) (inr h) d = elim (Bool-cases (x.name == n)) [
  | inl z ↦ rw z (retain_others-In g n gs h d)
  | inr z ↦ rw z (inr (retain_others-In g n gs h d))
]

In-retain_others :
    (g : Global) (n : ℕ) (gs : List Global) → In g (retain_others n gs) → In g gs × (g.name ≢ n)
unfolding retain_others
In-retain_others g n [] h = absurd h
In-retain_others g n (x ∷ gs) h = elim (Bool-cases (x.name == n)) [
  | inl z ↦ let (i, d) = In-retain_others g n gs (rw z at h) in (inr i, d)
  | inr z ↦ elim (rw z at h) [
    | inl e ↦
        (inl e, λ same. let other : x.name ≡ n = ap (λ y. y.name) e ∙ same in absurd (ground arith))
    | inr k ↦ let (i, d) = In-retain_others g n gs k in (inr i, d)
  ]
]

-- Globals of the list that stay, and those that are announced later.
after_events-In :
    (g : Global) (es : List RegistryEvent) (gs : List Global)
    → (In g gs × Kept g es) ⊎ Announced g es
    → In g (after_events es gs)
unfolding registry_event
after_events-In g [] gs (inl (i, k)) = i
after_events-In g [] gs (inr a) = absurd a
after_events-In g (announced h ∷ es) gs (inl (i, k)) =
    after_events-In g es (gs ++ h ∷ []) (inl (In-append_left g gs (h ∷ []) i, k))
after_events-In g (announced h ∷ es) gs (inr (inl (e, k))) =
    let same : h ≡ g = ground arith in
    after_events-In g es (gs ++ h ∷ []) (inl (In-append_right g gs (h ∷ []) (inl same), k))
after_events-In g (announced h ∷ es) gs (inr (inr a)) = after_events-In g es (gs ++ h ∷ []) (inr a)
after_events-In g (withdrawn n ∷ es) gs (inl (i, (d, k))) =
    after_events-In g es (retain_others n gs) (inl (retain_others-In g n gs i d, k))
after_events-In g (withdrawn n ∷ es) gs (inr (inl (e, k))) = absurd (ground arith)
after_events-In g (withdrawn n ∷ es) gs (inr (inr a)) =
    after_events-In g es (retain_others n gs) (inr a)

In-after_events :
    (g : Global) (es : List RegistryEvent) (gs : List Global)
    → In g (after_events es gs)
    → (In g gs × Kept g es) ⊎ Announced g es
unfolding registry_event
In-after_events g [] gs i = inl (i, tt)
In-after_events g (announced h ∷ es) gs i = elim (In-after_events g es (gs ++ h ∷ []) i) [
  | inl (j, k) ↦ elim (In-append g gs (h ∷ []) j) [
    | inl old ↦ inl (old, k)
    | inr new ↦ elim new [ inl e ↦ inr (inl (ap announced e, k)) | inr x ↦ absurd x ]
  ]
  | inr a ↦ inr (inr a)
]
In-after_events g (withdrawn n ∷ es) gs i = elim (In-after_events g es (retain_others n gs) i) [
  | inl (j, k) ↦ let (old, d) = In-retain_others g n gs j in inl (old, (d, k))
  | inr a ↦ inr (inr a)
]

-- The list that a registry starts with empty has, after the events of the server, exactly the
-- globals that have been announced and not withdrawn since.
pub after_events_iff :
    (g : Global) (es : List RegistryEvent) → In g (after_events es []) ↔ Announced g es
after_events_iff g es = (
  λ i. elim (In-after_events g es [] i) [ inl (none_yet, k) ↦ absurd none_yet | inr a ↦ a ],
  λ a. after_events-In g es [] (inr a),
)

-- The choice of `bind`: a global of the list with the name of the interface, and a version in range.
pub record Chosen (interface : Interface) (start end : ℕ) (gs : List Global) (name version : ℕ)
    : Type 0 where
  pub global : Global
  pub listed : In global gs
  pub same_interface : bytes_eq interface.name global.interface ≡ true
  pub same_name : name ≡ global.name
  pub not_below : start ≤ global.version
  pub advertised : version ≤ global.version
  pub requested : version ≤ end
  pub greatest : (version ≡ global.version) ⊎ (version ≡ end)
  pub generated : version ≤ interface.version

first_named-In :
    (interface : List ℕ) (gs : List Global) (g : Global)
    → first_named interface gs ≡ some g
    → In g gs × (bytes_eq interface g.interface ≡ true)
unfolding first_named
first_named-In interface [] g h = absurd (ground arith)
first_named-In interface (x ∷ gs) g h = elim (Bool-cases (bytes_eq interface x.interface)) [
  | inl z ↦
      let same : x ≡ g = ground arith in
      (inl same, subst (λ y. bytes_eq interface y.interface ≡ true) same z)
  | inr z ↦ let (i, e) = first_named-In interface gs g (rw z at h) in (inr i, e)
]

module _ (interface : Interface) (start end : ℕ) (gs : List Global)
    (fits : end ≤ interface.version) where
  bind_version-Chosen :
      (name version : ℕ) (o : Option Global)
      → first_named interface.name gs ≡ o
      → bind_version start end o ≡ returns (name, version)
      → Chosen interface start end gs name version
  unfolding bind_version
  bind_version-Chosen name version none e h = absurd (ground arith)
  bind_version-Chosen name version (some g) e h = elim (Bool-cases (ltb g.version start)) [
    | inl z ↦ absurd (ground arith)
    | inr z ↦
        let (i, same) = first_named-In interface.name gs g e in
        let n : g.name ≡ name = ground arith in
        let v : min g.version end ≡ version = ground arith in
        record {
          global = g;
          listed = i;
          same_interface = same;
          same_name = sym n;
          not_below = ground arith;
          advertised = omega (arith, v);
          requested = omega (arith, v);
          greatest = elim (Bool-cases (ltb g.version end)) [
            | inl l ↦ inl (ground (arith, v))
            | inr l ↦ inr (ground (arith, v))
          ];
          generated = omega (arith, v, fits);
        }
  ]

-- A bind that succeeds asks for the name of a global of the list that has the interface, at a version
-- that is at most the advertised one, the end of the requested range and the version of the generated
-- interface, and that is one of the first two. The advertised version is not below the start of the range.
pub bind-Chosen :
    (interface : Interface) (start end : ℕ) (gs : List Global) (name version : ℕ)
    → bind interface start end gs ≡ returns (name, version)
    → Chosen interface start end gs name version
unfolding bind
bind-Chosen interface start end gs name version h = elim (Bool-cases (ltb interface.version end)) [
  | inl z ↦ absurd (ground arith)
  | inr z ↦
      bind_version-Chosen interface start end gs (ground arith) name version
        (first_named interface.name gs) refl (rw z at h)
]
