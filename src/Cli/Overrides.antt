-- ===== src/Cli/Overrides.antt =====
-- The --param overrides of src/main.cpp: validate_overrides and apply_overrides.
pub mod Validated
pub mod Ready
use risc_e.Base.{ℕ, Bool, true, false, not, Option, none, some, List, [], ◌∷◌, ◌&&◌, if◌then◌else◌}
use risc_e.Base.Text.{Text, text, text_eq}
use risc_e.Component.Values.{Result, ok, error}
use risc_e.Component.Designs.{Component, name}
use risc_e.Component.Configure.{set_parameter}
use risc_e.Component.Registry.{unregistered, make_component}

pub record ParamOverride : Type 0 where
  pub component : Text
  pub name : Text
  pub value : Text

-- What validate_overrides reports before it returns false.
pub data Problem : Type 0 where
  unknown_component : ParamOverride → Problem
  not_active : ParamOverride → Problem
  rejected : ParamOverride → Text → Problem

-- make_component builds the same component whatever calls of the registry came before.
unfoldable pub build : Text → Option Component
build component = (make_component unregistered component).1

-- The names of the components that are active in the run.
pub record Active : Type 0 where
  pub predictor : Text
  pub icache : Text
  pub dcache : Text

unfoldable pub is_active : Active → Text → Bool
is_active a component = not (
    not (text_eq component a.predictor)
    && (not (text_eq component (text "pipeline"))
        && (not (text_eq component a.icache) && not (text_eq component a.dcache))))

-- One round of the loop; `none` goes on to the next.
unfoldable pub check_override : Bool → Active → ParamOverride → Option Problem
unfolding is_active
check_override comparison_mode a o = elim (build o.component) [
  | none ↦ some (unknown_component o)
  | some c ↦
      if not comparison_mode && not (is_active a o.component)
      then some (not_active o)
      else elim (set_parameter c o.name o.value) [ ok c' ↦ none | error e ↦ some (rejected o e) ]
]

unfoldable pub validate_overrides : List ParamOverride → Bool → Active → Option Problem
unfolding check_override
validate_overrides [] comparison_mode a = none
validate_overrides (o ∷ os) comparison_mode a =
    let rest = validate_overrides os comparison_mode a in
    elim (check_override comparison_mode a o) [ none ↦ rest | some problem ↦ some problem ]

-- `(void)component.set_parameter(...)`: a failure leaves the component as it was.
unfoldable pub apply_override : Component → ParamOverride → Component
apply_override c o = elim (set_parameter c o.name o.value) [ ok c' ↦ c' | error e ↦ c ]

unfoldable pub apply_overrides : Component → List ParamOverride → Component
unfolding apply_override
apply_overrides c [] = c
apply_overrides c (o ∷ os) =
    apply_overrides (if not (text_eq o.component (name c)) then c else apply_override c o) os
