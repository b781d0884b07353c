-- ===== src/Predictor/Stats/Counts.antt =====
-- The arithmetic of the counters under record_control_transfer.
use risc_e.Base.{ℕ, ◌+◌, ◌≤◌, ◌<◌, ◌≡◌, arith, Bool, some, [], ◌∷◌, length, length-append, ◌==◌}
use risc_e.Predictor.{BranchPredictor}
use risc_e.Predictor.Context.{BranchContext}
use risc_e.Predictor.Stats.{
  BranchStats, BranchRecord, max_trace, consult, score, push_trace, predicted_pc,
  record_control_transfer,
}

-- Every transfer is a hit or a miss, the breakdown is part of the totals, and the trace is capped.
pub record IsConsistent (s : BranchStats) : Type 0 where
  pub compared : s.hits + s.misses ≡ s.control_total
  pub hit_kinds : s.cond_hits + s.indirect_hits ≤ s.hits
  pub miss_kinds : s.cond_misses + s.indirect_misses ≤ s.misses
  pub capped : length s.trace ≤ max_trace
  pub recorded : length s.trace ≤ s.control_total

-- One comparison adds to exactly one of the totals.
score_counts :
    (hit : Bool) (ctx : BranchContext) (s : BranchStats)
    → s.hits + s.misses + 1 ≡ s.control_total
    → s.cond_hits + s.indirect_hits ≤ s.hits
    → s.cond_misses + s.indirect_misses ≤ s.misses
    → length s.trace ≤ max_trace
    → length s.trace < s.control_total
    → let t = score hit ctx s in
      (t.hits + t.misses ≡ t.control_total)
      × (t.cond_hits + t.indirect_hits ≤ t.hits)
      × (t.cond_misses + t.indirect_misses ≤ t.misses)
      × (length t.trace ≤ max_trace)
      × (length t.trace < t.control_total)
unfolding score
score_counts hit ctx s a b c d e = ground arith

push_trace-IsConsistent :
    (rec : BranchRecord) (s : BranchStats)
    → s.hits + s.misses ≡ s.control_total
    → s.cond_hits + s.indirect_hits ≤ s.hits
    → s.cond_misses + s.indirect_misses ≤ s.misses
    → length s.trace ≤ max_trace
    → length s.trace < s.control_total
    → IsConsistent (push_trace rec s)
unfolding push_trace
push_trace-IsConsistent rec s a b c d e = ground (arith, length-append s.trace (rec ∷ []))

-- With a predictor attached a control transfer keeps the statistics consistent.
pub record_control_transfer-IsConsistent :
    (p : BranchPredictor) (s : BranchStats) (st : p.State) (ctx : BranchContext) (taken : Bool)
    (next_pc inst_count : ℕ)
    → IsConsistent s
    → IsConsistent (record_control_transfer p s (some st) ctx taken next_pc inst_count).0
unfolding record_control_transfer consult
record_control_transfer-IsConsistent p s st ctx taken next_pc inst_count v =
    let counted = record s { control_total = s.control_total + 1 } in
    let parts =
      score_counts (predicted_pc (p.predict st ctx) ctx == next_pc) ctx counted (omega arith)
        (omega arith) (omega arith) (omega arith) (omega arith) in
    push_trace-IsConsistent _ _ parts.0 parts.1 parts.2 parts.3 parts.4
