-- ===== src/Interpreter/Halting/Exit.antt =====
-- How a run of src/interpreter/interpreter.cpp ends: at the exit system call with the program's code,
-- and at a fetch that faults with none.
use risc_e.Base.{
  ℕ, ◌+◌, ◌≡◌, refl, true, false, not, none, some, List, [], ◌∷◌, if◌then◌else◌, if-cases, ◌∙◌, ap,
}
use risc_e.Cpu.State.{CpuState}
use risc_e.Cpu.Trap.{TrapCause, Trap}
use risc_e.Decoder.{decode_raw_inst, imm_of_format, classify_opcode, decode_i_imm}
use risc_e.Memory.{fetch32}
use risc_e.Predictor.{BranchPredictor}
use risc_e.Interpreter.Machine.{
  Interpreter, deliver, enter_trap, raise_trap, handle_trap, environment_call, syscall_exit,
}
use risc_e.Interpreter.Execute.{execute, execute_system}
use risc_e.Interpreter.Run.{enter_block, profile, run_instruction, step, exit_code, run}
use risc_e.Interpreter.Outcomes.{halted, raise_fault_trap-halted}
use risc_e.Interpreter.Halting.{step_n, step_n-add, run_halts}

-- The word of `ecall`.
abbrev pub ecall_word : ℕ
ecall_word = 0x73

module _ {p : BranchPredictor} where
  profile-cpu : (i : Interpreter p) → (profile i).cpu ≡ i.cpu
  unfolding profile enter_block
  profile-cpu i =
      if-cases (λ (j : Interpreter p). j.cpu ≡ i.cpu) i.block_entering _ _ (λ _. refl) (λ _. refl)

  execute-ecall :
      (i : Interpreter p) (pc : ℕ)
      → execute i (decode_raw_inst ecall_word pc)
        ≡ raise_trap i TrapCause.environment_call_from_mmode 0
  unfolding execute execute_system decode_raw_inst imm_of_format classify_opcode decode_i_imm
  execute-ecall i pc = refl

  raise_trap-exit :
      (i : Interpreter p)
      → i.cpu.x 17 ≡ 93
      → raise_trap i TrapCause.environment_call_from_mmode 0
        ≡ syscall_exit (enter_trap i TrapCause.environment_call_from_mmode 0)
  unfolding raise_trap handle_trap environment_call enter_trap
  raise_trap-exit i h = rw h refl

  run_instruction-exit :
      (i : Interpreter p)
      → i.cpu.x 17 ≡ 93
      → ((run_instruction i ecall_word).cpu.running ≡ false)
        × (exit_code (run_instruction i ecall_word) ≡ some (i.cpu.x 10))
  unfolding run_instruction exit_code
  run_instruction-exit i h =
      let j = profile i in
      let same = profile-cpu i in
      let ends =
        execute-ecall j i.cpu.pc ∙ raise_trap-exit j (ap (λ (c : CpuState). c.x 17) same ∙ h) in
      rw ends (unfold syscall_exit enter_trap in (refl, ap (λ (c : CpuState). some (c.x 10)) same))

  -- What `step` does after the fetch, for the word and the calls of the sink that the fetch gives.
  abbrev after_fetch : Interpreter p → ℕ × List Trap → Interpreter p
  after_fetch i fetched =
      let j = deliver (record i { inst_count = i.inst_count + 1 }) fetched.1 in
      if not j.cpu.running then j else run_instruction j fetched.0

  step-after_fetch :
      (i : Interpreter p) (fetched : ℕ × List Trap)
      → i.cpu.running ≡ true
      → fetch32 i.mem i.cpu.pc ≡ fetched
      → step i ≡ after_fetch i fetched
  unfolding step
  step-after_fetch i fetched running e =
      ap (λ b. if not b then i else after_fetch i (fetch32 i.mem i.cpu.pc)) running
      ∙ ap (after_fetch i) e

  -- A fetch that calls no sink leads to the instruction.
  step-fetched :
      (i : Interpreter p) (inst : ℕ)
      → i.cpu.running ≡ true
      → fetch32 i.mem i.cpu.pc ≡ (inst, [])
      → step i ≡ run_instruction (record i { inst_count = i.inst_count + 1 }) inst
  unfolding deliver
  step-fetched i inst running fetched =
      let j = record i { inst_count = i.inst_count + 1 } in
      step-after_fetch i (inst, []) running fetched
      ∙ ap (λ b. if not b then j else run_instruction j inst) running

  step-exit :
      (i : Interpreter p)
      → i.cpu.running ≡ true
      → fetch32 i.mem i.cpu.pc ≡ (ecall_word, [])
      → i.cpu.x 17 ≡ 93
      → ((step i).cpu.running ≡ false) × (exit_code (step i) ≡ some (i.cpu.x 10))
  step-exit i running fetched h =
      rw (step-fetched i ecall_word running fetched)
        (run_instruction-exit (record i { inst_count = i.inst_count + 1 }) h)

  step-faulting :
      (i : Interpreter p) (v : ℕ) (t : Trap)
      → i.cpu.running ≡ true
      → fetch32 i.mem i.cpu.pc ≡ (v, t ∷ [])
      → step i ≡ halted (record i { inst_count = i.inst_count + 1 }) t.cause t.value
  unfolding deliver
  step-faulting i v t running fetched =
      step-after_fetch i (v, t ∷ []) running fetched
      ∙ ap (λ (j : Interpreter p). if not j.cpu.running then j else run_instruction j v)
          (raise_fault_trap-halted (record i { inst_count = i.inst_count + 1 }) t)

  step_n-step : (n : ℕ) (i : Interpreter p) → step_n (n + 1) i ≡ step (step_n n i)
  step_n-step n i = step_n-add n 1 i

  -- A program that reaches, after `n` instructions, an ecall with the number of exit in a7 ends there:
  -- run returns with any fuel above `n`, and what it returns is the value of a0.
  pub run_exits :
      (n k : ℕ) (i : Interpreter p)
      → (step_n n i).cpu.running ≡ true
      → fetch32 (step_n n i).mem (step_n n i).cpu.pc ≡ (ecall_word, [])
      → (step_n n i).cpu.x 17 ≡ 93
      → run (n + 1 + k) i ≡ some (step_n (n + 1) i, some ((step_n n i).cpu.x 10))
  run_exits n k i running fetched h =
      let ends = step-exit (step_n n i) running fetched h in
      let last = step_n-step n i in
      run_halts (n + 1) k i (ap (λ (j : Interpreter p). j.cpu.running) last ∙ ends.0)
      ∙ ap (λ c. some (step_n (n + 1) i, c)) (ap exit_code last ∙ ends.1)

  -- A program whose next fetch, after `n` instructions, makes one call of the trap sink ends there: run
  -- returns with any fuel above `n`, with no exit code, and the machine is the one of before, halted
  -- with this trap and with the fetch counted.
  pub run_faults :
      (n k v : ℕ) (t : Trap) (i : Interpreter p)
      → (step_n n i).cpu.running ≡ true
      → fetch32 (step_n n i).mem (step_n n i).cpu.pc ≡ (v, t ∷ [])
      → run (n + 1 + k) i
        ≡ some (
          halted (record (step_n n i) { inst_count = (step_n n i).inst_count + 1 }) t.cause t.value,
          none,
        )
  unfolding exit_code
  run_faults n k v t i running fetched =
      let ends = step_n-step n i ∙ step-faulting (step_n n i) v t running fetched in
      run_halts (n + 1) k i (ap (λ (j : Interpreter p). j.cpu.running) ends)
      ∙ ap (λ (j : Interpreter p). some (j, exit_code j)) ends
