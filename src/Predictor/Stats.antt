-- ===== src/Predictor/Stats.antt =====
-- Control-flow statistics: src/component/predictor/branch_stats.cpp and
-- include/risc-e/component/predictor/branch_stats.hpp.
-- The 64-bit counters are unbounded numbers: each grows by at most one for each executed instruction.
pub mod Replay
pub mod Counts
use risc_e.Base.{
  ℕ, ◌+◌, Bool, true, false, Option, none, some, List, [], ◌∷◌, ◌++◌, length, ltb, ◌&&◌, ◌==◌,
  if◌then◌else◌,
}
use risc_e.Decoder.{decode_raw_inst}
use risc_e.Predictor.{BranchPredictor}
use risc_e.Predictor.Context.{
  BranchContext, Prediction, Resolution, from_decoded, is_conditional_branch, is_jalr,
  fallthrough_pc,
}

pub record BranchRecord : Type 0 where
  pub inst_count : ℕ
  pub pc : ℕ
  pub raw : ℕ
  pub funct3 : ℕ
  pub taken : Bool
  pub target : ℕ

abbrev pub max_trace : ℕ
max_trace = 100000

-- The two arrays of eight counters are functions of funct3.
pub record BranchStats : Type 0 where
  pub total : ℕ
  pub taken : ℕ
  pub not_taken : ℕ
  pub type_total : ℕ → ℕ
  pub type_taken : ℕ → ℕ
  pub control_total : ℕ
  pub hits : ℕ
  pub misses : ℕ
  pub cond_hits : ℕ
  pub cond_misses : ℕ
  pub indirect_hits : ℕ
  pub indirect_misses : ℕ
  pub trace_enabled : Bool
  pub trace : List BranchRecord

abbrev pub fresh : BranchStats
fresh = record {
  total = 0;
  taken = 0;
  not_taken = 0;
  type_total = λ funct3. 0;
  type_taken = λ funct3. 0;
  control_total = 0;
  hits = 0;
  misses = 0;
  cond_hits = 0;
  cond_misses = 0;
  indirect_hits = 0;
  indirect_misses = 0;
  trace_enabled = false;
  trace = [];
}

-- BranchStats::reset, which leaves `trace_enabled` alone.
unfoldable pub reset : BranchStats → BranchStats
reset s = record fresh { trace_enabled = s.trace_enabled }

-- The value of `pred.next_pc.value_or(ctx.fallthrough_pc())`.
unfoldable pub predicted_pc : Prediction → BranchContext → ℕ
predicted_pc pred ctx = elim pred.next_pc [ none ↦ fallthrough_pc ctx | some target ↦ target ]

-- Hit or miss, with its breakdown.
unfoldable pub score : Bool → BranchContext → BranchStats → BranchStats
score hit ctx s =
    let branch = is_conditional_branch ctx in
    let indirect = is_jalr ctx in
    if hit
    then (if branch
        then record s { hits = s.hits + 1; cond_hits = s.cond_hits + 1 }
        else if indirect
        then record s { hits = s.hits + 1; indirect_hits = s.indirect_hits + 1 }
        else record s { hits = s.hits + 1 })
    else if branch
    then record s { misses = s.misses + 1; cond_misses = s.cond_misses + 1 }
    else if indirect
    then record s { misses = s.misses + 1; indirect_misses = s.indirect_misses + 1 }
    else record s { misses = s.misses + 1 }

unfoldable pub push_trace : BranchRecord → BranchStats → BranchStats
push_trace rec s =
    if s.trace_enabled && ltb (length s.trace) max_trace
    then record s { trace = s.trace ++ rec ∷ [] }
    else s

module _ (p : BranchPredictor) where
  -- The predictor's part: predict, then resolve, then compare.
  unfoldable pub consult :
      Option p.State → BranchContext → Bool → ℕ → BranchStats → BranchStats × Option p.State
  unfolding predicted_pc
  consult none ctx taken next_pc s = (s, none)
  consult (some st) ctx taken next_pc s =
      let hit = predicted_pc (p.predict st ctx) ctx == next_pc in
      (score hit ctx s, some (p.resolve st ctx (record { taken = taken; next_pc = next_pc })))

  unfoldable pub record_control_transfer :
      BranchStats → Option p.State → BranchContext → Bool → ℕ → ℕ → BranchStats × Option p.State
  record_control_transfer s predictor ctx taken next_pc inst_count =
      let counted = record s { control_total = s.control_total + 1 } in
      let (scored, predictor') = consult predictor ctx taken next_pc counted in
      (
        push_trace
            (record {
              inst_count = inst_count;
              pc = ctx.pc;
              raw = ctx.raw;
              funct3 = ctx.funct3;
              taken = taken;
              target = next_pc;
            })
            scored,
        predictor',
      )

  -- The loop of replay_trace.
  pub replay_from : BranchStats → Option p.State → List BranchRecord → BranchStats × Option p.State
  replay_from s st [] = (s, st)
  replay_from s st (rec ∷ rest) =
      let ctx = from_decoded (decode_raw_inst rec.raw rec.pc) in
      let (s', st') = record_control_transfer s st ctx rec.taken rec.target 0 in
      replay_from s' st' rest

  pub replay_trace : List BranchRecord → p.State → BranchStats
  unfolding replay_from
  replay_trace trace st = (replay_from fresh (some st) trace).0
