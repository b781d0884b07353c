-- ===== src/Cli/Overrides/Validated.antt =====
-- Overrides that validate_overrides of src/main.cpp accepts are all applied by apply_overrides.
use risc_e.Base.{
  ◌≡◌, refl, sym, ◌∙◌, arith, Bool, not, none, some, List, [], ◌∷◌, if◌then◌else◌, Bool-cases,
  if-cases, inl, inr,
}
use risc_e.Base.Text.{text_eq, text_eq_iff}
use risc_e.Component.Values.{Result, ok, error}
use risc_e.Component.Designs.{Component, name}
use risc_e.Component.Configure.{set_parameter}
use risc_e.Component.Configure.Outcome.{failure, set_parameter-failure, set_parameter-SameClass}
use risc_e.Component.Configure.Classes.{SameClass, SameClass-refl, SameClass-trans, SameClass-name}
use risc_e.Cli.Overrides.{
  ParamOverride, Active, build, check_override, validate_overrides, apply_override, apply_overrides,
}

-- No call of set_parameter that apply_overrides makes fails: each override for the component is
-- taken, in the state that the earlier ones left.
abbrev pub NoneFails : Component → List ParamOverride → Type 0
NoneFails c [] = Unit
NoneFails c (o ∷ os) =
    if text_eq o.component (name c)
    then (failure (set_parameter c o.name o.value) ≡ none) × NoneFails (apply_override c o) os
    else NoneFails c os

check_override-none :
    (mode : Bool) (a : Active) (o : ParamOverride) (c : Component)
    → build o.component ≡ some c
    → check_override mode a o ≡ none
    → failure (set_parameter c o.name o.value) ≡ none
unfolding check_override
check_override-none mode a o c built h = ground arith

validate_overrides-cons :
    (o : ParamOverride) (os : List ParamOverride) (mode : Bool) (a : Active)
    → validate_overrides (o ∷ os) mode a ≡ none
    → (check_override mode a o ≡ none) × (validate_overrides os mode a ≡ none)
unfolding validate_overrides
validate_overrides-cons o os mode a h = ground arith

apply_override-SameClass : (c : Component) (o : ParamOverride) → SameClass c (apply_override c o)
unfolding apply_override
apply_override-SameClass c o = applied (set_parameter c o.name o.value) refl
  where
    applied :
        (r : Result Component)
        → set_parameter c o.name o.value ≡ r
        → SameClass c (elim r as (λ _. Component) [ ok c' ↦ c' | error e ↦ c ])
    applied (ok d) e = set_parameter-SameClass c o.name o.value e
    applied (error t) e = SameClass-refl c

pub apply_overrides-SameClass :
    (c : Component) (os : List ParamOverride) → SameClass c (apply_overrides c os)
unfolding apply_overrides
apply_overrides-SameClass c [] = SameClass-refl c
apply_overrides-SameClass c (o ∷ os) =
    SameClass-trans
      (if-cases (SameClass c) (not (text_eq o.component (name c))) c (apply_override c o)
        (λ _. SameClass-refl c) (λ _. apply_override-SameClass c o))
      (apply_overrides-SameClass
        (if not (text_eq o.component (name c)) then c else apply_override c o) os)

pub validate_overrides-NoneFails :
    (os : List ParamOverride) (mode : Bool) (a : Active) (c fresh : Component)
    → build (name c) ≡ some fresh
    → SameClass fresh c
    → validate_overrides os mode a ≡ none
    → NoneFails c os
validate_overrides-NoneFails [] mode a c fresh built same h = tt
validate_overrides-NoneFails (o ∷ os) mode a c fresh built same h =
    let (first, rest) = validate_overrides-cons o os mode a h in
    elim (Bool-cases (text_eq o.component (name c))) [
      | inl here ↦
          let next = apply_override-SameClass c o in
          rw here (
            sym (set_parameter-failure o.name o.value same)
                ∙ check_override-none mode a o fresh
                    (rw ((text_eq_iff o.component (name c)).0 here) built) first,
            validate_overrides-NoneFails os mode a (apply_override c o) fresh
                (rw (← SameClass-name next) built) (SameClass-trans same next) rest,
          )
      | inr other ↦ rw other (validate_overrides-NoneFails os mode a c fresh built same rest)
    ]
