-- ===== src/Pipeline.antt =====
-- The pipeline model: src/component/pipeline/pipeline.cpp and
-- include/risc-e/component/pipeline/pipeline.hpp.
-- The two `int` fields are 32-bit patterns, since set_parameter casts a long to int. The
-- floating-point ratios are not modelled.
use risc_e.Base.Word.{sub32, add64, mul64}
use risc_e.Base.{ℕ, ◌+◌, ◌*◌, ◌≤◌, ◌<◌, ◌≡◌, arith, Bool, ltb, if◌then◌else◌, ◌&&◌, ◌^◌}
use native.Mathlib.Nat.{mul-le-mul}

pub record PipelineModel : Type 0 where
  pub stages : ℕ
  pub stall_penalty : ℕ

-- `x > 0` for an `int`.
abbrev is_positive : ℕ → Bool
is_positive x = ltb 0 x && ltb x (2 ^ 31)

unfoldable pub penalty_cycles : PipelineModel → ℕ
penalty_cycles m =
    if is_positive m.stall_penalty
    then m.stall_penalty
    else (let derived = sub32 m.stages 3 in if is_positive derived then derived else 0)

pub record PipelineStats : Type 0 where
  pub instructions : ℕ
  pub ideal_cycles : ℕ
  pub penalty_cycles : ℕ
  pub total_cycles : ℕ

unfoldable pub compute_pipeline_stats : ℕ → ℕ → PipelineModel → PipelineStats
compute_pipeline_stats inst_count stall_events model =
    let penalty = mul64 stall_events (penalty_cycles model) in
    record {
      instructions = inst_count;
      ideal_cycles = inst_count;
      penalty_cycles = penalty;
      total_cycles = add64 inst_count penalty;
    }

penalty_mono :
    (s t : ℕ)
    → s ≤ t
    → t < 2 ^ 31
    → penalty_cycles (record { stages = s; stall_penalty = 0 })
      ≤ penalty_cycles (record { stages = t; stall_penalty = 0 })
unfolding penalty_cycles
penalty_mono s t h small = ground arith

-- More stall events or a deeper pipeline, of fewer than 2 ^ 31 stages, never cost fewer cycles, as
-- long as the larger total is below 2 ^ 64, and a run without stall events costs one cycle for each
-- instruction.
compute_pipeline_stats_mono :
    (n e f s t : ℕ)
    → e ≤ f
    → s ≤ t
    → t < 2 ^ 31
    → n + f * penalty_cycles (record { stages = t; stall_penalty = 0 }) < 2 ^ 64
    → ((compute_pipeline_stats n e (record { stages = s; stall_penalty = 0 })).total_cycles
        ≤ (compute_pipeline_stats n f (record { stages = t; stall_penalty = 0 })).total_cycles)
      × ((compute_pipeline_stats n 0 (record { stages = s; stall_penalty = t })).total_cycles ≡ n)
unfolding compute_pipeline_stats
compute_pipeline_stats_mono n e f s t events stages small fits =
    (omega (arith, fits, mul-le-mul events (penalty_mono s t stages small)), ground (arith, fits))
