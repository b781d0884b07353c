-- ===== src/Predictor/Stats/Replay.antt =====
-- Replaying the trace that a run recorded gives the numbers of the run.
use risc_e.Base.{
  ℕ, ◌+◌, ◌≤◌, ◌<◌, ◌≡◌, refl, arith, ◌∙◌, sym, subst, Bool, true, Option, none, some, List, [],
  ◌∷◌, ◌++◌, length, length-append, lt→ltb,
}
use mathlib.Core.List.{append_assoc, append-nil, map}
use risc_e.Decoder.{decode_raw_inst}
use risc_e.Predictor.{BranchPredictor}
use risc_e.Predictor.Context.{BranchContext, from_decoded}
use risc_e.Predictor.Stats.{
  BranchStats, BranchRecord, fresh, max_trace, consult, score, push_trace, record_control_transfer,
  replay_from, replay_trace,
}

-- The counters that record_control_transfer keeps.
abbrev pub SameScore : BranchStats → BranchStats → Type 0
SameScore s t =
    (s.control_total ≡ t.control_total)
    × (s.hits ≡ t.hits)
    × (s.misses ≡ t.misses)
    × (s.cond_hits ≡ t.cond_hits)
    × (s.cond_misses ≡ t.cond_misses)
    × (s.indirect_hits ≡ t.indirect_hits)
    × (s.indirect_misses ≡ t.indirect_misses)

-- A control transfer that the interpreter reports: the word at `pc`, its outcome, and when.
pub record Transfer : Type 0 where
  pub raw : ℕ
  pub pc : ℕ
  pub taken : Bool
  pub next_pc : ℕ
  pub inst_count : ℕ

abbrev pub context : Transfer → BranchContext
context t = from_decoded (decode_raw_inst t.raw t.pc)

abbrev pub traced : Transfer → BranchRecord
traced t = record {
  inst_count = t.inst_count;
  pc = (context t).pc;
  raw = (context t).raw;
  funct3 = (context t).funct3;
  taken = t.taken;
  target = t.next_pc;
}

score-SameScore :
    (hit : Bool) (ctx : BranchContext) (s t : BranchStats)
    → SameScore s t
    → SameScore (score hit ctx s) (score hit ctx t)
unfolding score
score-SameScore hit ctx s t h = ground arith

push_trace-SameScore :
    (q r : BranchRecord) (s t : BranchStats)
    → SameScore s t
    → SameScore (push_trace q s) (push_trace r t)
unfolding push_trace
push_trace-SameScore q r s t h = ground arith

score-trace :
    (hit : Bool) (ctx : BranchContext) (s : BranchStats)
    → ((score hit ctx s).trace ≡ s.trace) × ((score hit ctx s).trace_enabled ≡ s.trace_enabled)
unfolding score
score-trace hit ctx s = ground arith

push_trace_room :
    (rec : BranchRecord) (s : BranchStats) (so_far : List BranchRecord)
    → s.trace ≡ so_far
    → s.trace_enabled ≡ true
    → length so_far < max_trace
    → ((push_trace rec s).trace ≡ so_far ++ rec ∷ []) × ((push_trace rec s).trace_enabled ≡ true)
unfolding push_trace
push_trace_room rec s so_far e on room = rw (on, e, lt→ltb _ _ room) (refl, refl)

module _ (p : BranchPredictor) where
  -- The live run.
  pub run_transfers : BranchStats → Option p.State → List Transfer → BranchStats × Option p.State
  run_transfers s st [] = (s, st)
  run_transfers s st (t ∷ rest) =
      let (s', st') = record_control_transfer p s st (context t) t.taken t.next_pc t.inst_count in
      run_transfers s' st' rest

  step-SameScore :
      (s t : BranchStats) (st : Option p.State) (ctx : BranchContext) (taken : Bool) (next m n : ℕ)
      → SameScore s t
      → SameScore
          (record_control_transfer p s st ctx taken next m).0
          (record_control_transfer p t st ctx taken next n).0
        × ((record_control_transfer p s st ctx taken next m).1
            ≡ (record_control_transfer p t st ctx taken next n).1)
  unfolding record_control_transfer consult
  step-SameScore s t none ctx taken next m n h = (push_trace-SameScore _ _ _ _ (omega arith), refl)
  step-SameScore s t (some st) ctx taken next m n h =
      (push_trace-SameScore _ _ _ _ (score-SameScore _ ctx _ _ (omega arith)), refl)

  step-trace :
      (s : BranchStats) (st : Option p.State) (t : Transfer)
      → s.trace_enabled ≡ true
      → length s.trace < max_trace
      → let r = record_control_transfer p s st (context t) t.taken t.next_pc t.inst_count in
        (r.0.trace ≡ s.trace ++ traced t ∷ []) × (r.0.trace_enabled ≡ true)
  unfolding record_control_transfer consult
  step-trace s none t on room = push_trace_room _ _ s.trace refl on room
  step-trace s (some st) t on room =
      let kept = score-trace _ (context t) (record s { control_total = s.control_total + 1 }) in
      push_trace_room _ _ s.trace kept.0 (kept.1 ∙ on) room

  -- With tracing on and room for the history, the trace grows by the record of each transfer.
  trace-run_transfers :
      (s : BranchStats) (st : Option p.State) (ts : List Transfer)
      → s.trace_enabled ≡ true
      → length s.trace + length ts ≤ max_trace
      → (run_transfers s st ts).0.trace ≡ s.trace ++ map traced ts
  unfolding run_transfers
  trace-run_transfers s st [] on room = sym (append-nil s.trace)
  trace-run_transfers s st (t ∷ ts) on room =
      let step = step-trace s st t on (omega arith) in
      let s' = record_control_transfer p s st (context t) t.taken t.next_pc t.inst_count in
      let room' : length s'.0.trace + length ts ≤ max_trace =
        rw step.0 (omega (arith, length-append s.trace (traced t ∷ []))) in
      trace-run_transfers s'.0 s'.1 ts step.1 room'
      ∙ rw step.0 (append_assoc s.trace (traced t ∷ []) (map traced ts))

  replay-run_transfers :
      (s q : BranchStats) (st : Option p.State) (ts : List Transfer)
      → SameScore s q
      → SameScore (run_transfers s st ts).0 (replay_from p q st (map traced ts)).0
        × ((run_transfers s st ts).1 ≡ (replay_from p q st (map traced ts)).1)
  unfolding run_transfers replay_from decode_raw_inst
  replay-run_transfers s q st [] h = (h, refl)
  replay-run_transfers s q st (t ∷ ts) h =
      let step = step-SameScore s q st (context t) t.taken t.next_pc t.inst_count 0 h in
      let s' = record_control_transfer p s st (context t) t.taken t.next_pc t.inst_count in
      let q' = record_control_transfer p q st (context t) t.taken t.next_pc 0 in
      subst
        (λ w.
          SameScore (run_transfers s'.0 s'.1 ts).0 (replay_from p q'.0 w (map traced ts)).0
          × ((run_transfers s'.0 s'.1 ts).1 ≡ (replay_from p q'.0 w (map traced ts)).1))
        step.1 (replay-run_transfers s'.0 q'.0 s'.1 ts step.0)

  -- Replaying the recorded trace through the same predictor from the same start gives the numbers of
  -- the live run, when tracing was on from the start and the history fits the trace.
  pub replay_trace-run_transfers :
      (st : p.State) (ts : List Transfer)
      → length ts ≤ max_trace
      → let live = (run_transfers (record fresh { trace_enabled = true }) (some st) ts).0 in
        SameScore live (replay_trace p live.trace st)
  unfolding replay_trace
  replay_trace-run_transfers st ts room =
      let start = record fresh { trace_enabled = true } in
      rw (trace-run_transfers start (some st) ts refl (omega arith))
        (replay-run_transfers start fresh (some st) ts (omega arith)).0
