-- ===== src/Cli/Comparison.antt =====
-- The comparison of the components of one type: build_comparison_rows of src/main.cpp.
pub mod Baseline
use risc_e.Base.{ℕ, ◌==◌, Option, none, some, List, [], ◌∷◌, ◌++◌, if◌then◌else◌}
use risc_e.Base.Text.{Text}
use risc_e.Component.Designs.{Component}
use risc_e.Component.Costs.{CycleCost, RunContext, cycle_cost, reset}
use risc_e.Component.Registry.{unregistered, component_names, is_empty}
use risc_e.Cli.Overrides.{ParamOverride, build, apply_overrides}

-- A double that is zero or the quotient of two counts.
pub data Speedup : Type 0 where
  no_speedup : Speedup
  quotient : ℕ → ℕ → Speedup

pub record ComparisonRow : Type 0 where
  pub name : Text
  pub cycles_before : ℕ
  pub cycles_after : ℕ
  pub speedup : Speedup

pub record ComparisonResult : Type 0 where
  pub type : Text
  pub baseline : Text
  pub rows : List ComparisonRow

abbrev pub speedup_of : CycleCost → Speedup
speedup_of k =
    if k.baseline_cycles == 0 then no_speedup else quotient k.baseline_cycles k.total_cycles

-- The row of a component that has a cost; the first row gives the baseline's name.
unfoldable pub push_row : Text → CycleCost → ComparisonResult → ComparisonResult
push_row name k result = record result {
  rows =
      result.rows
      ++ (record {
        name = name;
        cycles_before = k.baseline_cycles;
        cycles_after = k.total_cycles;
        speedup = speedup_of k;
      }
          ∷ []);
  baseline = if is_empty result.baseline then k.baseline_name else result.baseline;
}

-- A component that does not model time is skipped.
unfoldable pub push_cost : Text → Option CycleCost → ComparisonResult → ComparisonResult
unfolding push_row
push_cost name none result = result
push_cost name (some k) result = push_row name k result

-- A component that is unknown is skipped.
unfoldable pub compare_made :
    RunContext → List ParamOverride → ComparisonResult → Text → Option Component → ComparisonResult
unfolding push_cost
compare_made ctx overrides result name none = result
compare_made ctx overrides result name (some c) =
    push_cost name (cycle_cost (reset (apply_overrides c overrides)) ctx) result

-- One round of the loop.
unfoldable pub compare_component :
    RunContext → List ParamOverride → ComparisonResult → Text → ComparisonResult
unfolding compare_made
compare_component ctx overrides result name = compare_made ctx overrides result name (build name)

unfoldable pub compare_components :
    RunContext → List ParamOverride → ComparisonResult → List Text → ComparisonResult
unfolding compare_component
compare_components ctx overrides result [] = result
compare_components ctx overrides result (name ∷ names) =
    compare_components ctx overrides (compare_component ctx overrides result name) names

unfoldable pub build_comparison_rows :
    Text → Text → RunContext → List ParamOverride → ComparisonResult
unfolding compare_components
build_comparison_rows type only ctx overrides =
    compare_components ctx overrides (record { type = type; baseline = []; rows = [] })
      (if is_empty only then (component_names unregistered type).1 else only ∷ [])
