-- ===== src/Component/Costs.antt =====
-- cycle_cost and reset of every component: src/component/predictor/branch_predictor.cpp,
-- src/component/pipeline/pipeline.cpp, src/component/icache/icache.cpp,
-- src/component/dcache/implementations/l1l2_cache.cpp and include/risc-e/component/run_context.hpp.
use risc_e.Base.{ℕ, ◌≡◌, refl, Bool, Option, none, some, List, [], ◌∷◌}
use risc_e.Base.Text.{Text, text}
use risc_e.Predictor.{BranchPredictor}
use risc_e.Predictor.Stack
use risc_e.Predictor.Stats.{BranchStats, BranchRecord, replay_trace}
use risc_e.Predictor.Designs.TwoBit
use risc_e.Predictor.Designs.Gshare
use risc_e.Predictor.Designs.Tournament
use risc_e.Predictor.Designs.AlwaysNotTaken
use risc_e.Predictor.Designs.Ras
use risc_e.Pipeline.{PipelineModel, compute_pipeline_stats}
use risc_e.ICache.Profile.{ICacheStats}
use risc_e.ICache.Cache.{ICacheConfig, simulate_icache}
use risc_e.DCache.Trace.{DCacheStats}
use risc_e.DCache.Cache.{DCacheConfig}
use risc_e.DCache.Hierarchy.{simulate_hierarchy}
use risc_e.Component.Designs.{
  Component, two_bit, always_not_taken, gshare, tournament, ras, pipeline, icache, l1_l2, type,
}

pub record CycleCost : Type 0 where
  pub total_cycles : ℕ
  pub baseline_cycles : ℕ
  pub baseline_name : Text

-- A null pointer is `none`.
pub record RunContext : Type 0 where
  pub instruction_count : ℕ
  pub branch_stats : Option BranchStats
  pub model : Option PipelineModel
  pub profile_stats : Option ICacheStats
  pub access_trace : Option DCacheStats
  pub verbose : Bool

-- BranchPredictor::cycle_cost on a trace that is not empty.
unfoldable pub replay_cost :
    (p : BranchPredictor) → p.State → ℕ → PipelineModel → List BranchRecord → CycleCost
replay_cost p st instructions model trace =
    let replay = replay_trace p trace st in
    let base = replay_trace AlwaysNotTaken.predictor trace tt in
    record {
      total_cycles = (compute_pipeline_stats instructions replay.misses model).total_cycles;
      baseline_cycles = (compute_pipeline_stats instructions base.misses model).total_cycles;
      baseline_name = text "no prediction";
    }

unfoldable pub predictor_cost : (p : BranchPredictor) → p.State → RunContext → Option CycleCost
unfolding replay_cost
predictor_cost p st ctx = elim (ctx.branch_stats) [
  | none ↦ none
  | some s ↦ elim (s.trace) [
    | [] ↦ none
    | rec ∷ rest ↦ elim (ctx.model) [
      | none ↦ none
      | some model ↦ some (replay_cost p st ctx.instruction_count model (rec ∷ rest))
    ]
  ]
]

unfoldable pub pipeline_cost : PipelineModel → RunContext → Option CycleCost
pipeline_cost m ctx = elim (ctx.branch_stats) [
  | none ↦ none
  | some s ↦ some (record {
    total_cycles = (compute_pipeline_stats ctx.instruction_count s.misses m).total_cycles;
    baseline_cycles = ctx.instruction_count;
    baseline_name = text "stall-free";
  })
]

unfoldable pub icache_cost : ICacheConfig → RunContext → Option CycleCost
icache_cost config ctx = elim (ctx.profile_stats) [
  | none ↦ none
  | some stats ↦
      let t = simulate_icache config stats in
      some (record {
        total_cycles = t.total_cycles;
        baseline_cycles = t.baseline_cycles;
        baseline_name = text "no instruction cache";
      })
]

unfoldable pub levels_cost : DCacheConfig → DCacheConfig → RunContext → Option CycleCost
levels_cost l1 l2 ctx = elim (ctx.access_trace) [
  | none ↦ none
  | some trace ↦
      let h = simulate_hierarchy l1 l2 trace in
      some (record {
        total_cycles = h.total_cycles;
        baseline_cycles = h.baseline_cycles;
        baseline_name = text "L1 only";
      })
]

-- The virtual call.
unfoldable pub cycle_cost : Component → RunContext → Option CycleCost
unfolding predictor_cost pipeline_cost icache_cost levels_cost
cycle_cost (two_bit s) ctx = predictor_cost TwoBit.predictor s ctx
cycle_cost always_not_taken ctx = predictor_cost AlwaysNotTaken.predictor tt ctx
cycle_cost (gshare s) ctx = predictor_cost Gshare.predictor s ctx
cycle_cost (tournament s) ctx = predictor_cost Tournament.predictor s ctx
cycle_cost (ras s) ctx = predictor_cost Ras.predictor s ctx
cycle_cost (pipeline m) ctx = pipeline_cost m ctx
cycle_cost (icache design config) ctx = icache_cost config ctx
cycle_cost (l1_l2 l1 l2) ctx = levels_cost l1 l2 ctx

-- reset(): the caches and the pipeline keep no state between runs.
unfoldable pub reset : Component → Component
reset (two_bit s) = two_bit (TwoBit.reset s)
reset always_not_taken = always_not_taken
reset (gshare s) = gshare (Gshare.reset s)
reset (tournament s) = tournament (Tournament.reset s)
reset (ras s) = ras (Stack.reset s)
reset (pipeline m) = pipeline m
reset (icache design config) = icache design config
reset (l1_l2 l1 l2) = l1_l2 l1 l2

-- Two costs of one table: the baseline of the first is what the second costs in total, and the second
-- is its own baseline.
abbrev pub IsComparable : Option CycleCost → Option CycleCost → Type 0
IsComparable none none = Unit
IsComparable none (some r) = ⊥
IsComparable (some k) none = ⊥
IsComparable (some k) (some r) =
    (k.baseline_cycles ≡ r.total_cycles)
    × (r.baseline_cycles ≡ r.total_cycles)
    × (k.baseline_name ≡ r.baseline_name)

predictor_cost-IsComparable :
    (p : BranchPredictor) (st : p.State) (ctx : RunContext)
    → IsComparable (predictor_cost p st ctx) (predictor_cost AlwaysNotTaken.predictor tt ctx)
unfolding predictor_cost
predictor_cost-IsComparable p st ctx = stats (ctx.branch_stats)
  where
    stats :
        (b : Option BranchStats)
        → IsComparable
            (predictor_cost p st (record ctx { branch_stats = b }))
            (predictor_cost AlwaysNotTaken.predictor tt (record ctx { branch_stats = b }))
    stats none = tt
    stats (some s) = traces (s.trace) (ctx.model)
      where
        traces :
            (trace : List BranchRecord) (model : Option PipelineModel)
            → IsComparable
                (predictor_cost p st
                  (record ctx { branch_stats = some (record s { trace = trace }); model = model }))
                (predictor_cost AlwaysNotTaken.predictor tt
                  (record ctx { branch_stats = some (record s { trace = trace }); model = model }))
        traces [] model = tt
        traces (rec ∷ rest) none = tt
        traces (rec ∷ rest) (some model) = (refl, refl, refl)

-- The rows of a predictor comparison have one baseline: a predictor has a cost exactly when
-- always-not-taken has one, and its baseline is then the total of always-not-taken.
pub cycle_cost-IsComparable :
    (c : Component) (ctx : RunContext)
    → type c ≡ text "predictor"
    → IsComparable (cycle_cost c ctx) (cycle_cost always_not_taken ctx)
unfolding cycle_cost
cycle_cost-IsComparable (two_bit s) ctx h = predictor_cost-IsComparable TwoBit.predictor s ctx
cycle_cost-IsComparable always_not_taken ctx h =
    predictor_cost-IsComparable AlwaysNotTaken.predictor tt ctx
cycle_cost-IsComparable (gshare s) ctx h = predictor_cost-IsComparable Gshare.predictor s ctx
cycle_cost-IsComparable (tournament s) ctx h =
    predictor_cost-IsComparable Tournament.predictor s ctx
cycle_cost-IsComparable (ras s) ctx h = predictor_cost-IsComparable Ras.predictor s ctx
cycle_cost-IsComparable (pipeline m) ctx h = cc
cycle_cost-IsComparable (icache design config) ctx h = cc
cycle_cost-IsComparable (l1_l2 a b) ctx h = cc
