-- ===== src/Cli/Tests.antt =====
-- Witnesses and runs for the command line.
use risc_e.Base.{List, replicate, ◌≡◌, ◌≢◌, ◌↔◌, refl, arith, true, false, none, some, [], ◌∷◌, All}
use risc_e.Base.Text.{Text, text, text_eq}
use risc_e.Predictor.Stats
use risc_e.Predictor.Stack
use risc_e.Predictor.Stack.{default_depth}
use risc_e.Predictor.Designs.TwoBit
use risc_e.Predictor.Designs.Tournament
use risc_e.Predictor.Designs.Tournament.{Tournament}
use risc_e.Component.Designs.{Component, always_not_taken, tournament, pipeline}
use risc_e.Component.Configure.Ready.{IsReady}
use risc_e.Component.Costs.{RunContext, CycleCost, cycle_cost}
use risc_e.Component.Registry.{unregistered, component_names, make_component}
use risc_e.Cli.Overrides.{ParamOverride, Active, build, apply_overrides}
use risc_e.Cli.Overrides.Ready.{apply_overrides-build}
use risc_e.Cli.Json.{pretty_json}
use risc_e.Cli.Json.Content.{minify-pretty_json}
use risc_e.Cli.Json.Blanks.{outside, minify}
use risc_e.Cli.Json.Nesting.{nests, pretty_json-nests}
use risc_e.Cli.Options.{defaults, parse_loop, parse_args}
use risc_e.Cli.Options.Params.{params_of, parse_args-params_of}
use risc_e.Cli.Comparison.{build_comparison_rows}
use risc_e.Cli.Comparison.Baseline.{IsMeasured, names_in, build_comparison_rows-baseline}
use risc_e.Cli.Listing.{print_component_list}
use risc_e.Cli.Listing.Known.{IsAnswered, print_component_list-IsAnswered}

-- `pipeline.stages=7`
abbrev seven_stages : ParamOverride
seven_stages = record { component = text "pipeline"; name = text "stages"; value = text "7" }

abbrev defaults_active : Active
defaults_active = record {
  predictor = text "two-bit";
  icache = text "icache-fa";
  dcache = text "l1-l2";
}

abbrev five_stages : Component
five_stages = pipeline (record { stages = 5; stall_penalty = 0 })

-- `tournament.history-bits=4`, then `tournament.ras-depth=8`
abbrev short_history : List ParamOverride
short_history =
    record { component = text "tournament"; name = text "history-bits"; value = text "4" }
    ∷ record { component = text "tournament"; name = text "ras-depth"; value = text "8" }
    ∷ []

-- The tournament predictor as the registry builds it.
abbrev ten_bits : Tournament
ten_bits = record {
  history_bits = 10;
  history_mask = 1023;
  global_history = 0;
  local_history = replicate 1024 0;
  local_pht = replicate 1024 2;
  global_pht = replicate 1024 2;
  choice_pht = replicate 1024 2;
  ras = Stack.new default_depth;
}

tournament_built : build (text "tournament") ≡ some (tournament ten_bits)
unfolding build make_component text_eq Tournament.new Tournament.configure
tournament_built = refl

apply_overrides-build_example : IsReady (apply_overrides (tournament ten_bits) short_history)
apply_overrides-build_example =
    apply_overrides-build (text "tournament") short_history tournament_built

-- `{"a":1}`
abbrev document : Text
document = 123 ∷ 34 ∷ 97 ∷ 34 ∷ 58 ∷ 49 ∷ 125 ∷ []

abbrev printed : Text
printed = 123 ∷ 10 ∷ 32 ∷ 32 ∷ 34 ∷ 97 ∷ 34 ∷ 58 ∷ 32 ∷ 49 ∷ 10 ∷ 125 ∷ []

document-printed : pretty_json document ≡ some printed
unfolding pretty_json
document-printed = refl

minify-pretty_json_example : minify printed ≡ minify document
minify-pretty_json_example = minify-pretty_json document document-printed

pretty_json-nests_example : (pretty_json document ≢ none) ↔ (nests outside 0 document ≡ true)
pretty_json-nests_example = pretty_json-nests document

parse_args-params_of_example :
    parse_args (params_of (seven_stages ∷ []) (text "--verbose" ∷ []))
    ≡ parse_loop (record defaults { overrides = seven_stages ∷ [] }) none (text "--verbose" ∷ [])
parse_args-params_of_example =
    parse_args-params_of (seven_stages ∷ []) (text "--verbose" ∷ []) (ground arith)

-- A run of one branch that was taken.
abbrev one_branch : RunContext
one_branch = record {
  instruction_count = 10;
  branch_stats = some (record Stats.fresh {
    trace =
        record {
          inst_count = 1;
          pc = 0x1000;
          raw = 0x00000463;
          funct3 = 0;
          taken = true;
          target = 0x1008;
        }
        ∷ [];
  });
  model = some (record { stages = 5; stall_penalty = 0 });
  profile_stats = none;
  access_trace = none;
  verbose = false;
}

branch_cost : (k : CycleCost) × (cycle_cost always_not_taken one_branch ≡ some k)
unfolding cycle_cost
branch_cost = (_, refl)

build_comparison_rows-baseline_example :
    All (IsMeasured branch_cost.0) (build_comparison_rows (text "predictor") [] one_branch []).rows
    × (names_in (build_comparison_rows (text "predictor") [] one_branch []).rows
        ≡ (component_names unregistered (text "predictor")).1)
build_comparison_rows-baseline_example =
    build_comparison_rows-baseline one_branch [] branch_cost.0 branch_cost.1

print_component_list-IsAnswered_example :
    IsAnswered (text "ras") (print_component_list (text "ras"))
print_component_list-IsAnswered_example = print_component_list-IsAnswered (text "ras")
