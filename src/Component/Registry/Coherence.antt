-- ===== src/Component/Registry/Coherence.antt =====
-- The registry of src/component/registry.cpp agrees with the components that it builds.
use risc_e.Base.{
  ◌≡◌, sym, ◌∙◌, subst, ◌⊎◌, inl, inr, refl, ap, arith, Bool, true, false, Option, some, List, [],
  ◌∷◌, All, ◌||◌, if◌then◌else◌, Bool-cases,
}
use risc_e.Base.Text.{Text, text_eq, text_eq_iff}
use risc_e.Predictor.Stack.{default_depth}
use risc_e.Predictor.Designs.TwoBit
use risc_e.Predictor.Designs.Gshare
use risc_e.Predictor.Designs.Tournament
use risc_e.Component.Designs.{Component, two_bit, gshare, tournament, name, type}
use risc_e.Component.Registry.{
  ComponentEntry, Registry, unregistered, make, register_all, component_types, component_names,
  names_of, find_component, make_component, is_empty,
}

-- The factory builds a component that has the entry's name and type.
abbrev pub IsCoherent : ComponentEntry → Type 0
IsCoherent e = (c : Component) × (e.factory ≡ some c) × (name c ≡ e.name) × (type c ≡ e.type)

abbrev Builds {ℓ} : {A : Type ℓ} → Option A → Type ℓ
Builds {A} o = (a : A) × (o ≡ some a)

two_bit-Builds : Builds (TwoBit.new 1024 default_depth)
unfolding TwoBit.new
two_bit-Builds = (_, refl)

gshare-Builds : Builds (Gshare.new 12 default_depth)
unfolding Gshare.new
gshare-Builds = (_, refl)

tournament-Builds : Builds (Tournament.new 10 default_depth)
unfolding Tournament.new
tournament-Builds = (_, refl)

made {ℓ} :
    {A : Type ℓ} (wrap : A → Component) (o : Option A)
    → (b : Builds o) → make wrap o ≡ some (wrap b.0)
made wrap o b = rw (b.1)

-- What every registration has: the entries that follow are those of the source.
abbrev entries : List ComponentEntry
entries = (register_all unregistered).entries

entries-IsCoherent : All IsCoherent entries
unfolding register_all
entries-IsCoherent = (
  (_, made two_bit (TwoBit.new 1024 default_depth) two_bit-Builds, refl, refl),
  (
    (_, refl, refl, refl),
    (
      (_, made gshare (Gshare.new 12 default_depth) gshare-Builds, refl, refl),
      (
        (_, made tournament (Tournament.new 10 default_depth) tournament-Builds, refl, refl),
        (built, (built, (built, (built, (built, (built, (built, tt))))))),
      ),
    ),
  ),
)
  where
    built :
        {c : Component}
        → (d : Component) × (◌≡◌ {A = Option Component} (some c) (some d))
          × (name d ≡ name c)
          × (type d ≡ type c)
    built {c} = (c, refl, refl, refl)

-- No two entries have one name.
abbrev AreDistinct : List ComponentEntry → Type 0
AreDistinct [] = Unit
AreDistinct (e ∷ es) = All (λ f. text_eq e.name f.name ≡ false) es × AreDistinct es

entries-AreDistinct : AreDistinct entries
unfolding register_all text_eq
entries-AreDistinct = ground arith

abbrev pub IsListed : Text → List Text → Type 0
IsListed n [] = ⊥
IsListed n (x ∷ xs) = (x ≡ n) ⊎ IsListed n xs

text_eq_self : (t : Text) → text_eq t t ≡ true
text_eq_self t = (text_eq_iff t t).1 refl

shown_type : (t u : Text) → is_empty t || text_eq u t ≡ true → (t ≡ []) ⊎ (u ≡ t)
shown_type [] u h = inl refl
shown_type (c ∷ cs) u h = inr ((text_eq_iff u (c ∷ cs)).0 h)

-- A listed name is that of the first entry, which then has the type asked for, or of a later one.
IsListed-cases :
    (n t : Text) (e : ComponentEntry) (es : List ComponentEntry)
    → IsListed n (names_of t (e ∷ es))
    → ((e.name ≡ n) × ((t ≡ []) ⊎ (e.type ≡ t))) ⊎ IsListed n (names_of t es)
unfolding names_of
IsListed-cases n t e es h = elim (Bool-cases (is_empty t || text_eq e.type t)) [
  | inl shown ↦ elim (listed_if shown h) [
    | inl here ↦ inl (here, shown_type t e.type shown)
    | inr later ↦ inr later
  ]
  | inr hidden ↦ inr (listed_if hidden h)
]
  where
    listed_if :
        {b : Bool}
        → is_empty t || text_eq e.type t ≡ b
        → IsListed n
            (if is_empty t || text_eq e.type t then e.name ∷ names_of t es else names_of t es)
        → IsListed n (if b then e.name ∷ names_of t es else names_of t es)
    listed_if same =
        subst (λ b. IsListed n (if b then e.name ∷ names_of t es else names_of t es)) same

-- A name that differs from all names of some entries is listed for none of their types.
listed-distinct :
    (x n t : Text) (es : List ComponentEntry)
    → All (λ f. text_eq x f.name ≡ false) es
    → IsListed n (names_of t es)
    → text_eq x n ≡ false
unfolding names_of
listed-distinct x n t [] d h = absurd h
listed-distinct x n t (e ∷ es) d h = elim (IsListed-cases n t e es h) [
  | inl here ↦ rw (← here.0) (d.0)
  | inr later ↦ listed-distinct x n t es d.1 later
]

-- What make_component gives for a listed name.
abbrev pub IsBuilt : Option Component → Text → Text → Type 0
IsBuilt o n t = (c : Component) × (o ≡ some c) × (name c ≡ n) × ((t ≡ []) ⊎ (type c ≡ t))

find_component-names_of :
    (n t : Text) (es : List ComponentEntry)
    → All IsCoherent es
    → AreDistinct es
    → IsListed n (names_of t es)
    → IsBuilt (find_component n es) n t
unfolding find_component names_of
find_component-names_of n t [] coherent distinct h = absurd h
find_component-names_of n t (e ∷ es) coherent distinct h = elim (IsListed-cases n t e es h) [
  | inl here ↦
      let (c, made, named, typed) = coherent.0 in
      (
        c,
        rw ((text_eq_iff e.name n).1 here.0) made,
        named ∙ here.0,
        elim (here.1) [ inl all ↦ inl all | inr same ↦ inr (typed ∙ same) ],
      )
  | inr later ↦
      rw (listed-distinct e.name n t es distinct.0 later)
        (find_component-names_of n t es coherent.1 distinct.1 later)
]

-- The calls that the command line makes of the registry.
pub data Call : Type 0 where
  list_types : Call
  list_names : Text → Call
  build : Text → Call

abbrev pub after : List Call → Registry
after [] = unregistered
after (list_types ∷ calls) = (component_types (after calls)).0
after (list_names type ∷ calls) = (component_names (after calls) type).0
after (build name ∷ calls) = (make_component (after calls) name).0

register_all-registered : (r : Registry) → (register_all r).registered ≡ true
unfolding register_all
register_all-registered r = ground arith

register_all_done : (r : Registry) → r.registered ≡ true → register_all r ≡ r
unfolding register_all
register_all_done r h = simp h

register_all_idem : (r : Registry) → register_all (register_all r) ≡ register_all r
register_all_idem r = register_all_done (register_all r) (register_all-registered r)

register_all-after : (calls : List Call) → register_all (after calls) ≡ register_all unregistered
unfolding component_types component_names make_component
register_all-after [] = refl
register_all-after (list_types ∷ calls) = register_all_idem (after calls) ∙ register_all-after calls
register_all-after (list_names type ∷ calls) =
    register_all_idem (after calls) ∙ register_all-after calls
register_all-after (build name ∷ calls) = register_all_idem (after calls) ∙ register_all-after calls

-- Whatever calls came before, each name that component_names gives for a type, or for the empty
-- text, is one that make_component builds a component for, and this has that name and that type.
pub make_component-component_names :
    (calls : List Call) (n t : Text)
    → IsListed n (component_names (after calls) t).1
    → IsBuilt (make_component (after calls) n).1 n t
unfolding component_names make_component
make_component-component_names calls n t h = rw (register_all-after calls) (
    find_component-names_of n t entries entries-IsCoherent entries-AreDistinct
      (subst (λ r. IsListed n (names_of t r.entries)) (register_all-after calls) h))

find_component-name :
    (n : Text) (es : List ComponentEntry) {c : Component}
    → All IsCoherent es
    → find_component n es ≡ some c
    → name c ≡ n
unfolding find_component
find_component-name n [] coherent h = cc
find_component-name n (e ∷ es) {c} coherent h = elim (Bool-cases (text_eq e.name n)) [
  | inl here ↦
      let (d, made, named, typed) = coherent.0 in
      let same : d ≡ c = cc (made, found true here) in
      sym (ap name same) ∙ (named ∙ (text_eq_iff e.name n).0 here)
  | inr other ↦ find_component-name n es coherent.1 (found false other)
]
  where
    found :
        (b : Bool) → text_eq e.name n ≡ b → (if b then e.factory else find_component n es) ≡ some c
    found b same = subst (λ b. (if b then e.factory else find_component n es) ≡ some c) same h

-- The component that make_component builds for a name has this name.
pub name-make_component :
    (n : Text) {c : Component} → (make_component unregistered n).1 ≡ some c → name c ≡ n
unfolding make_component
name-make_component n h = find_component-name n entries entries-IsCoherent h
