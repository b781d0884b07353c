-- ===== src/Interpreter/Counters.antt =====
-- What the traps and system calls of src/interpreter/interpreter.cpp leave alone: the statistics, the
-- access trace, the profile and the instruction count.
use risc_e.Base.{
  ℕ, zero, suc, ◌+◌, ◌≡◌, refl, true, false, List, [], ◌∷◌, ◌++◌, ltb, ◌==◌, ◌||◌, if-cases, ◌∙◌,
}
use risc_e.Base.Word.{add32}
use risc_e.Cpu.Trap.{TrapCause, Trap}
use risc_e.Memory.{load8}
use risc_e.Predictor.{BranchPredictor}
use risc_e.Predictor.Stats.{BranchStats}
use risc_e.ICache.Profile.{ICacheStats}
use risc_e.DCache.Trace.{DCacheStats}
use risc_e.Interpreter.Machine.{
  Interpreter, stack_bottom, enter_trap, halt_on_trap, raise_fault_trap, raise_trap, handle_trap,
  deliver, return_to_program, write_loop, syscall_write, syscall_exit, syscall_brk,
  environment_call,
}

pub record Counters : Type 0 where
  pub branches : BranchStats
  pub accesses : DCacheStats
  pub profile : ICacheStats
  pub inst_count : ℕ

module _ {p : BranchPredictor} where
  abbrev pub counters : Interpreter p → Counters
  counters i = record {
    branches = i.branch_stats;
    accesses = i.access_trace;
    profile = i.profile_stats;
    inst_count = i.inst_count;
  }

  abbrev Keeps : Interpreter p → Interpreter p → Type 0
  Keeps i j = counters j ≡ counters i

  pub counters-deliver : (i : Interpreter p) (ts : List Trap) → counters (deliver i ts) ≡ counters i
  unfolding deliver raise_fault_trap halt_on_trap enter_trap
  counters-deliver i [] = refl
  counters-deliver i (t ∷ ts) = counters-deliver (raise_fault_trap i t) ts

  counters-write_loop :
      (buf left k : ℕ) (i : Interpreter p) → counters (write_loop buf left k i) ≡ counters i
  unfolding write_loop
  counters-write_loop buf zero k i = refl
  counters-write_loop buf (suc left) k i =
      let byte = load8 i.mem (add32 buf k) in
      let j = deliver i byte.1 in
      let next = record j { program_output = j.program_output ++ byte.0 ∷ [] } in
      elim j.cpu.running
        as (λ running.
          Keeps i (elim running [ false ↦ j | true ↦ write_loop buf left (k + 1) next ])) [
            | false ↦ counters-deliver i byte.1
            | true ↦ counters-write_loop buf left (k + 1) next ∙ counters-deliver i byte.1
          ]

  counters-environment_call : (i : Interpreter p) → counters (environment_call i) ≡ counters i
  unfolding environment_call syscall_write syscall_exit syscall_brk return_to_program
  counters-environment_call i =
      if-cases (Keeps i) (i.cpu.x 17 == 64) _ _
        (λ _.
          if-cases (Keeps i) (i.cpu.x 10 == 1 || i.cpu.x 10 == 2) _ _
            (λ _.
              if-cases (Keeps i) (write_loop (i.cpu.x 11) (i.cpu.x 12) 0 i).cpu.running _ _
                (λ _. counters-write_loop _ _ 0 i) (λ _. counters-write_loop _ _ 0 i))
            (λ _. refl))
        λ _.
          if-cases (Keeps i) (i.cpu.x 17 == 93) _ _ (λ _. refl)
            λ _.
              if-cases (Keeps i) (i.cpu.x 17 == 214) _ _
                (λ _.
                  if-cases (Keeps i)
                    (i.cpu.x 10 == 0
                      || ltb (i.cpu.x 10) i.heap_break
                      || ltb stack_bottom (i.cpu.x 10))
                    _ _ (λ _. refl)
                    (λ _.
                      if-cases (Keeps i) (ltb i.heap_break (i.cpu.x 10)) _ _ (λ _. refl)
                        (λ _. refl)))
                (λ _. refl)

  pub counters-raise_trap :
      (i : Interpreter p) (cause : TrapCause) (value : ℕ)
      → counters (raise_trap i cause value) ≡ counters i
  unfolding raise_trap handle_trap halt_on_trap enter_trap
  counters-raise_trap i cause value =
      if-cases (Keeps i) ((enter_trap i cause value).cpu.mcause == 11) _ _
        (λ _. counters-environment_call (enter_trap i cause value)) (λ _. refl)
