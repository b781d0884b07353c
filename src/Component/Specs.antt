-- ===== src/Component/Specs.antt =====
-- parameters() of every component, with ParamSpec of include/risc-e/component/component.hpp.
pub mod Keys
pub mod Caches
pub mod Catalogue
use risc_e.Base.{ℕ, List, [], ◌∷◌, ◌++◌}
use risc_e.Base.Text.{Text, text, to_string, signed_string}
use risc_e.Predictor.Stack.{ReturnAddressStack, max_depth}
use risc_e.Predictor.Designs.TwoBit.{TwoBit}
use risc_e.Pipeline.{PipelineModel}
use risc_e.ICache.Cache.{ICacheConfig}
use risc_e.DCache.Cache.{DCacheConfig}
use risc_e.Component.Designs.{
  CacheDesign, fully_associative, set_associative, pseudo_lru, prefetch, Component, two_bit,
  always_not_taken, gshare, tournament, ras, pipeline, icache, l1_l2,
}

pub record ParamSpec : Type 0 where
  pub name : Text
  pub help : Text
  pub lowest : ℕ
  pub highest : ℕ
  pub default_value : Text

abbrev spec : Text → Text → ℕ → ℕ → Text → ParamSpec
spec name help lowest highest default_value = record {
  name = name;
  help = help;
  lowest = lowest;
  highest = highest;
  default_value = default_value;
}

unfoldable pub ras_depth_parameter : ReturnAddressStack → ParamSpec
ras_depth_parameter s =
    spec (text "ras-depth") (text "return-address stack depth (0 disables)") 0 max_depth
      (to_string s.depth)

unfoldable pub append_shared_parameters : ICacheConfig → List ParamSpec → List ParamSpec
append_shared_parameters config out =
    out
    ++ (spec (text "miss-penalty") (text "stall cycles per cache miss") 0 0
          (to_string config.miss_penalty)
        ∷ spec (text "line-size") (text "cache line size in bytes") 1 0 (to_string config.line_size)
        ∷ [])

unfoldable pub append_geometry_parameters : ICacheConfig → Text → List ParamSpec → List ParamSpec
append_geometry_parameters config ways_help out =
    out
    ++ (spec (text "sets") (text "number of sets") 1 0 (to_string config.sets)
        ∷ spec (text "ways") ways_help 1 0 (to_string config.ways)
        ∷ [])

-- The four classes below ICacheComponent.
unfoldable pub cache_parameters : CacheDesign → ICacheConfig → List ParamSpec
unfolding append_shared_parameters append_geometry_parameters
cache_parameters fully_associative config =
    append_shared_parameters config []
    ++ (spec (text "ways") (text "number of lines (capacity = ways x line-size)") 1 0
          (to_string config.ways)
        ∷ [])
cache_parameters set_associative config =
    append_geometry_parameters config (text "lines per set (1 = direct-mapped)")
      (append_shared_parameters config [])
cache_parameters pseudo_lru config =
    append_geometry_parameters config (text "lines per set (power of two for PLRU)")
      (append_shared_parameters config [])
cache_parameters prefetch config =
    append_geometry_parameters config (text "lines per set (1 = direct-mapped)")
      (append_shared_parameters config [])

unfoldable pub append_level_parameters : List ParamSpec → Text → DCacheConfig → List ParamSpec
append_level_parameters out p config =
    out
    ++ (spec (p ++ text "hit-latency") (text "cycles for a hit at this level") 0 0
          (to_string config.hit_latency)
        ∷ spec (p ++ text "miss-penalty")
            (text "cycles for a miss at this level (L2: the DRAM round trip)") 0 0
            (to_string config.miss_penalty)
        ∷ spec (p ++ text "line-size") (text "cache line size in bytes") 1 0
            (to_string config.line_size)
        ∷ spec (p ++ text "sets") (text "number of sets") 1 0 (to_string config.sets)
        ∷ spec (p ++ text "ways") (text "lines per set (1 = direct-mapped)") 1 0
            (to_string config.ways)
        ∷ [])

unfoldable pub pipeline_parameters : PipelineModel → List ParamSpec
pipeline_parameters m =
    spec (text "stages") (text "pipeline depth (penalty = depth - 3 per stall event)") 1 0
      (signed_string m.stages)
    ∷ spec (text "stall-penalty") (text "per-stall-event penalty in cycles (0 derives from depth)")
        0 0 (signed_string m.stall_penalty)
    ∷ []

-- The virtual call; AlwaysNotTakenPredictor has the empty list of Component.
unfoldable pub parameters : Component → List ParamSpec
unfolding ras_depth_parameter cache_parameters append_level_parameters pipeline_parameters
parameters (two_bit s) =
    spec (text "table-size") (text "number of 2-bit counters (power of two)") 1 0
      (to_string s.table_size)
    ∷ ras_depth_parameter s.ras
    ∷ []
parameters always_not_taken = []
parameters (gshare s) =
    spec (text "history-bits") (text "pattern-history length (table size = 1 << bits)") 1 16
      (to_string s.history_bits)
    ∷ ras_depth_parameter s.ras
    ∷ []
parameters (tournament s) =
    spec (text "history-bits") (text "pattern-history length (sizes every table)") 1 16
      (to_string s.history_bits)
    ∷ ras_depth_parameter s.ras
    ∷ []
parameters (ras s) = ras_depth_parameter s ∷ []
parameters (pipeline m) = pipeline_parameters m
parameters (icache design config) = cache_parameters design config
parameters (l1_l2 l1 l2) =
    append_level_parameters (append_level_parameters [] (text "l1-") l1) (text "l2-") l2

abbrev pub spec_names : List ParamSpec → List Text
spec_names [] = []
spec_names (p ∷ ps) = p.name ∷ spec_names ps
