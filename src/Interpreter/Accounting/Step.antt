-- ===== src/Interpreter/Accounting/Step.antt =====
-- The books of the machine across profile and step of src/interpreter/interpreter.cpp.
use risc_e.Base.{
  ℕ, suc, ◌+◌, ◌≤◌, ◌≡◌, refl, arith, false, not, ◌==◌, if-cases, Option-cases, Bool-cases, ◌⊎◌,
  inl, inr, subst, sym,
}
use risc_e.Decoder.{decode_raw_inst}
use risc_e.Memory.{fetch32}
use risc_e.Predictor.{BranchPredictor}
use risc_e.ICache.Profile.{
  ICacheStats, record_instruction, record_block_entry, record_block_instruction, intern, no_block,
}
use risc_e.Interpreter.Machine.{Interpreter, deliver}
use risc_e.Interpreter.Execute.{execute}
use risc_e.Interpreter.Run.{enter_block, profile, run_instruction, step, is_control_transfer}
use risc_e.Interpreter.Counters.{Counters, counters, counters-deliver}
use risc_e.Interpreter.Accounting.{IsCounted, Counts}
use risc_e.Interpreter.Accounting.Execute.{execute-Counts}

intern-instructions : (s : ICacheStats) (pc : ℕ) → (intern s pc).0.instructions ≡ s.instructions
unfolding intern
intern-instructions s pc = elim (Option-cases (s.pc_to_id pc)) [
  | inl e ↦ rw (e, intern)
  | inr (id, e) ↦ rw (e, intern)
]

block_instruction-instructions :
    (s : ICacheStats) (id : ℕ) → (record_block_instruction s id).instructions ≡ s.instructions
unfolding record_block_instruction
block_instruction-instructions s id =
    if-cases (λ (t : ICacheStats). t.instructions ≡ s.instructions) (not (id == no_block)) _ _
      (λ _. refl) (λ _. refl)

module _ {p : BranchPredictor} where
  enter_block-counters :
      (i : Interpreter p)
      → let j = enter_block i in
        (j.profile_stats.instructions ≡ i.profile_stats.instructions)
        × (j.branch_stats ≡ i.branch_stats)
        × (j.access_trace ≡ i.access_trace)
        × (j.inst_count ≡ i.inst_count)
  unfolding enter_block record_block_entry
  enter_block-counters i =
      if-cases
        (λ (j : Interpreter p).
          (j.profile_stats.instructions ≡ i.profile_stats.instructions)
          × (j.branch_stats ≡ i.branch_stats)
          × (j.access_trace ≡ i.access_trace)
          × (j.inst_count ≡ i.inst_count))
        i.block_entering _ _ (λ _. (intern-instructions i.profile_stats i.cpu.pc, refl, refl, refl))
        (λ _. (refl, refl, refl, refl))

  -- The profile counts one instruction more, and nothing else moves.
  profile-Counts :
      (i : Interpreter p)
      → (i.branch_stats.taken + i.branch_stats.not_taken ≡ i.branch_stats.total)
      → i.branch_stats.total ≤ i.branch_stats.control_total
      → i.branch_stats.control_total + i.access_trace.loads + i.access_trace.stores
        ≤ i.profile_stats.instructions
      → suc i.profile_stats.instructions ≡ i.inst_count
      → Counts 1 (profile i)
  unfolding profile record_instruction
  profile-Counts i a b c e =
      let start = record i { profile_stats = record_instruction i.profile_stats i.cpu.pc } in
      let j = enter_block start in
      let kept = enter_block-counters start in
      let last = block_instruction-instructions j.profile_stats j.current_block_id in
      let branches : IsCounted 1 (record {
        branches = i.branch_stats;
        accesses = i.access_trace;
        profile = record (i.profile_stats) { instructions = i.profile_stats.instructions + 1 };
        inst_count = i.inst_count;
      }) =
        omega arith in
      rw (kept.1, kept.2, kept.3, last, kept.0) branches

  -- What a step keeps: the machine may have stopped in the fetch of an instruction, which counts but
  -- is not profiled.
  pub record IsAccounted (i : Interpreter p) : Type 0 where
    pub branches : i.branch_stats.taken + i.branch_stats.not_taken ≡ i.branch_stats.total
    pub transfers : i.branch_stats.total ≤ i.branch_stats.control_total
    pub work :
        i.branch_stats.control_total + i.access_trace.loads + i.access_trace.stores
        ≤ i.profile_stats.instructions
    pub profiled :
        (i.profile_stats.instructions ≡ i.inst_count)
        ⊎ ((i.cpu.running ≡ false) × (suc i.profile_stats.instructions ≡ i.inst_count))

  accounted : (i : Interpreter p) → Counts 0 i → IsAccounted i
  accounted i h = record {
    branches = h.0;
    transfers = h.1;
    work = omega (arith, h);
    profiled = inl h.3;
  }

  run_instruction-IsAccounted :
      (i : Interpreter p) (inst : ℕ)
      → (i.branch_stats.taken + i.branch_stats.not_taken ≡ i.branch_stats.total)
      → i.branch_stats.total ≤ i.branch_stats.control_total
      → i.branch_stats.control_total + i.access_trace.loads + i.access_trace.stores
        ≤ i.profile_stats.instructions
      → suc i.profile_stats.instructions ≡ i.inst_count
      → IsAccounted (run_instruction i inst)
  unfolding run_instruction
  run_instruction-IsAccounted i inst a b c e =
      let d = decode_raw_inst inst i.cpu.pc in
      let done = execute-Counts (profile i) d (profile-Counts i a b c e) in
      accounted (record (execute (profile i) d) { block_entering = is_control_transfer d })
        (done.counted)

  -- One step keeps the books of a machine whose books are in order: conditional branches are taken or
  -- not, each is a control transfer, transfers, loads and stores are at most the instructions
  -- profiled, and these are the instructions counted, but for one whose fetch stopped the machine.
  pub step-IsAccounted : (i : Interpreter p) → IsAccounted i → IsAccounted (step i)
  unfolding step
  step-IsAccounted i h = elim (Bool-cases i.cpu.running) [
    | inr stopped ↦
        if-cases IsAccounted (not i.cpu.running) _ _ (λ _. h) (λ on. absurd (ground arith))
    | inl on ↦
        let fetched = fetch32 i.mem i.cpu.pc in
        let counted = record i { inst_count = i.inst_count + 1 } in
        let j = deliver counted fetched.1 in
        let same_counters : counters j ≡ counters counted = counters-deliver counted fetched.1 in
        let live : i.profile_stats.instructions ≡ i.inst_count = elim h.profiled [
          | inl e ↦ e
          | inr (off, e) ↦ absurd (ground arith)
        ] in
        let branches =
          subst (λ (c : Counters). c.branches.taken + c.branches.not_taken ≡ c.branches.total)
            (sym same_counters) h.branches in
        let transfers =
          subst (λ (c : Counters). c.branches.total ≤ c.branches.control_total) (sym same_counters)
            h.transfers in
        let work =
          subst
            (λ (c : Counters).
              c.branches.control_total + c.accesses.loads + c.accesses.stores
              ≤ c.profile.instructions)
            (sym same_counters) h.work in
        let profiled =
          subst (λ (c : Counters). suc c.profile.instructions ≡ c.inst_count) (sym same_counters)
            (omega (arith, live)) in
        if-cases IsAccounted (not i.cpu.running) _ _ (λ _. h)
          λ _.
            if-cases IsAccounted (not j.cpu.running) _ _
              (λ off. record {
                branches = branches;
                transfers = transfers;
                work = work;
                profiled = inr (ground arith, profiled);
              })
              (λ _. run_instruction-IsAccounted j fetched.0 branches transfers work profiled)
  ]
