-- ===== src/Interpreter/Accounting.antt =====
-- How the counters of the components move: record_control_transfer, the counters of execute_branch
-- and DCacheStats::record, against one budget of instructions.
pub mod Execute
pub mod Step
use Prim.Native.Nat.{bit_and}
use risc_e.Base.{
  ℕ, zero, suc, ◌+◌, ◌≤◌, ◌≡◌, refl, arith, Bool, true, false, not, Option, none, some, List, [],
  ◌∷◌, length, ltb, ◌==◌, ◌&&◌, ◌||◌, if◌then◌else◌, if-cases, Option-cases, Bool-cases, ◌⊎◌, inl,
  inr, subst, sym, ap, ◌∙◌, update,
}
use risc_e.Base.Word.{add32}
use risc_e.Cpu.Trap.{TrapCause, Trap}
use risc_e.Decoder.{DecodedInstruction, decode_raw_inst}
use risc_e.Decoder.Opcodes
use risc_e.Memory.{fetch32}
use risc_e.Predictor.{BranchPredictor}
use risc_e.Predictor.Context.{BranchContext, from_decoded, is_conditional_branch, is_jalr}
use risc_e.Predictor.Stats.{
  BranchStats, BranchRecord, consult, score, push_trace, record_control_transfer, max_trace,
  predicted_pc,
}
use risc_e.ICache.Profile.{
  ICacheStats, record_instruction, record_block_entry, record_block_instruction, intern, no_block,
}
use risc_e.DCache.Trace.{DCacheKind, DCacheStats, record_access, max_records}
use risc_e.Interpreter.Alu.{branch_taken, alu_imm, alu_op}
use risc_e.Interpreter.Machine.{Interpreter, write_register, raise_trap, deliver}
use risc_e.Interpreter.Execute.{
  load_value, store_value, load_size, store_size, count_branch, advance, illegal, retire, transfer,
  execute_branch, execute_op_imm, execute_op, finish_load, execute_load, finish_store,
  execute_store, halt_on_ebreak, execute_system, execute_jal, execute_jalr, execute_misc_mem,
  execute,
}
use risc_e.Interpreter.Run.{enter_block, profile, run_instruction, step, is_control_transfer}
use risc_e.Interpreter.Counters.{Counters, counters, counters-deliver, counters-raise_trap}

-- Every conditional branch is taken or not and is a control transfer; transfers and accesses are
-- instructions, `k` of which are not yet spent; and every counted instruction is profiled.
abbrev pub IsCounted : ℕ → Counters → Type 0
IsCounted k c =
    (c.branches.taken + c.branches.not_taken ≡ c.branches.total)
    × (c.branches.total ≤ c.branches.control_total)
    × (c.branches.control_total + c.accesses.loads + c.accesses.stores + k ≤ c.profile.instructions)
    × (c.profile.instructions ≡ c.inst_count)

score-transfers :
    (hit : Bool) (ctx : BranchContext) (s : BranchStats)
    → let t = score hit ctx s in
      (t.total ≡ s.total)
      × (t.taken ≡ s.taken)
      × (t.not_taken ≡ s.not_taken)
      × (t.control_total ≡ s.control_total)
unfolding score
score-transfers hit ctx s = ground arith

push_trace-transfers :
    (r : BranchRecord) (s : BranchStats)
    → let t = push_trace r s in
      (t.total ≡ s.total)
      × (t.taken ≡ s.taken)
      × (t.not_taken ≡ s.not_taken)
      × (t.control_total ≡ s.control_total)
unfolding push_trace
push_trace-transfers r s = ground arith

module _ (p : BranchPredictor) where
  pub record-transfers :
      (s : BranchStats) (st : Option p.State) (ctx : BranchContext) (taken : Bool) (next n : ℕ)
      → let t = (record_control_transfer p s st ctx taken next n).0 in
        (t.total ≡ s.total)
        × (t.taken ≡ s.taken)
        × (t.not_taken ≡ s.not_taken)
        × (t.control_total ≡ suc s.control_total)
  unfolding record_control_transfer consult
  record-transfers s none ctx taken next n = omega (
    arith,
    push_trace-transfers
        (record {
          inst_count = n;
          pc = ctx.pc;
          raw = ctx.raw;
          funct3 = ctx.funct3;
          taken = taken;
          target = next;
        })
        (record s { control_total = s.control_total + 1 }),
  )
  record-transfers s (some st) ctx taken next n =
      let counted = record s { control_total = s.control_total + 1 } in
      let hit = predicted_pc (p.predict st ctx) ctx == next in
      omega (
        arith,
        score-transfers hit ctx counted,
        push_trace-transfers
            (record {
              inst_count = n;
              pc = ctx.pc;
              raw = ctx.raw;
              funct3 = ctx.funct3;
              taken = taken;
              target = next;
            })
            (score hit ctx counted),
      )

pub count_branch-counts :
    (funct3 : ℕ) (taken : Bool) (s : BranchStats)
    → let t = count_branch funct3 taken s in
      (t.total ≡ suc s.total)
      × (t.taken + t.not_taken ≡ suc (s.taken + s.not_taken))
      × (t.control_total ≡ s.control_total)
unfolding count_branch
count_branch-counts funct3 true s = ground arith
count_branch-counts funct3 false s = ground arith

pub record_access-counts :
    (s : DCacheStats) (kind : DCacheKind) (addr size : ℕ)
    → let t = record_access s kind addr size in t.loads + t.stores ≡ suc (s.loads + s.stores)
unfolding record_access
record_access-counts s DCacheKind.load addr size = ground arith
record_access-counts s DCacheKind.store addr size = ground arith
record_access-counts s DCacheKind.fetch addr size = ground arith

module _ {p : BranchPredictor} where
  abbrev pub Counts : ℕ → Interpreter p → Type 0
  Counts k i = IsCounted k (counters i)

  pub record HasCounts (i : Interpreter p) : Type 0 where
    pub counted : Counts 0 i

  pub same : (k : ℕ) (i j : Interpreter p) → counters j ≡ counters i → Counts k i → Counts k j
  same k i j e h = subst (IsCounted k) (sym e) h
