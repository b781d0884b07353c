-- ===== src/Cli/Selection.antt =====
-- What main in src/main.cpp does between the argument loop and the run: the checks and the choice of
-- the active components.
pub mod Configured
use risc_e.Base.{
  ◌≡◌, refl, sym, ap, ◌∙◌, subst, true, false, Option, none, some, List, ◌&&◌, if◌then◌else◌,
  Bool-cases, inl, inr,
}
use risc_e.Base.Text.{Text, text, text_eq, text_eq_iff}
use risc_e.Component.Designs.{Component, pipeline, type, name}
use risc_e.Component.Configure.Ready.{IsReady}
use risc_e.Component.Configure.Classes.{SameClass-refl}
use risc_e.Component.Registry.Coherence.{name-make_component}
use risc_e.Cli.Overrides.{
  ParamOverride, Problem, Active, build, validate_overrides, apply_overrides,
}
use risc_e.Cli.Overrides.Ready.{apply_overrides-build}
use risc_e.Cli.Overrides.Validated.{NoneFails, validate_overrides-NoneFails}
use risc_e.Cli.Options.{Options}

-- The active components of a run.
pub record Run : Type 0 where
  pub predictor : Component
  pub icache : Component
  pub dcache : Component
  pub pipeline : Component

-- Main returns 1, compares components over the run, or reports on the active ones.
pub data Selection : Type 0 where
  mixed_modes : Selection
  invalid : Problem → Selection
  unknown_predictor unknown_icache unknown_dcache : Text → Selection
  comparing : Component → Selection
  running : Run → Selection

abbrev pub active : Options → Active
active o = record { predictor = o.predictor_name; icache = o.icache_name; dcache = o.dcache_name }

-- make_component, then dynamic_cast to the base class of a type.
unfoldable pub build_of : Text → Text → Option Component
build_of t n = elim (build n) [ none ↦ none | some c ↦ if text_eq (type c) t then some c else none ]

-- The overrides are applied to the three selected components and the pipeline.
unfoldable pub configure_run : Options → Component → Component → Component → Run
configure_run o p i d = record {
  predictor = apply_overrides p o.overrides;
  icache = apply_overrides i o.overrides;
  dcache = apply_overrides d o.overrides;
  pipeline = apply_overrides (pipeline o.pipeline) o.overrides;
}

-- The data cache, after the predictor and the instruction cache.
unfoldable pub select_dcache : Options → Component → Component → Option Component → Selection
unfolding configure_run
select_dcache o p i none = unknown_dcache o.dcache_name
select_dcache o p i (some d) = running (configure_run o p i d)

unfoldable pub select_icache : Options → Component → Option Component → Selection
unfolding select_dcache
select_icache o p none = unknown_icache o.icache_name
select_icache o p (some i) = select_dcache o p i (build_of (text "cache") o.dcache_name)

unfoldable pub select_predictor : Options → Option Component → Selection
unfolding select_icache
select_predictor o none = unknown_predictor o.predictor_name
select_predictor o (some p) = select_icache o p (build_of (text "icache") o.icache_name)

unfoldable pub select : Options → Selection
unfolding select_predictor
select o =
    if o.comparison_mode && o.saw_predictor
    then mixed_modes
    else elim (validate_overrides o.overrides o.comparison_mode (active o)) [
      | some problem ↦ invalid problem
      | none ↦
          if o.comparison_mode
          then comparing (apply_overrides (pipeline o.pipeline) o.overrides)
          else select_predictor o (build_of (text "predictor") o.predictor_name)
    ]
