-- ===== src/Interpreter/Tests.antt =====
-- Witnesses for the interpreter's theorems, on the image of `addi a7, zero, 93; ecall` at 0x1000.
use risc_e.Base.{
  inl, get_or, ◌==◌, ℕ, ◌+◌, ◌≡◌, ◌≢◌, ◌↔◌, refl, arith, true, false, none, some, List, [], ◌∷◌,
  All, if◌then◌else◌,
}
use risc_e.Base.Word.{add32}
use risc_e.Cpu.Trap.{Trap, TrapCause}
use risc_e.Cpu.State.{HaltReason}
use risc_e.Decoder.{
  DecodedInstruction, decode_raw_inst, imm_of_format, classify_opcode, decode_i_imm, decode_j_imm,
}
use risc_e.DCache.Trace
use risc_e.ICache.Profile
use risc_e.Elf.Loaded.{Succeeds}
use risc_e.Elf.Tests.{exit_file, exit_file-IsByte}
use risc_e.Interpreter.Invariant.Boot.{boot-IsWellFormed}
use risc_e.Elf.{load_elf, LoadedElf}
use risc_e.Memory.{
  PhysicalMemory, fetch32, fetch_bytes, check_alignment, check_range, get_page_ptr, raise_fault,
  Page,
}
use risc_e.Memory.Pages.{byte_at}
use risc_e.Memory.Stores.{can_store, overlay}
use risc_e.Predictor.{BranchPredictor}
use risc_e.Predictor.Designs.AlwaysNotTaken
use risc_e.Interpreter.Alu.{alu_op, alu_imm, branch_taken}
use risc_e.Interpreter.Alu.Signed.{blt, Holds, branch_taken_iff}
use risc_e.Interpreter.Alu.Legality.{IsRegisterOperation, Ends, execute_op-Ends}
use risc_e.Interpreter.Alu.Operations.{IsResult, sub, alu_op-IsResult}
use risc_e.Interpreter.Machine.{Interpreter, deliver, write_register}
use risc_e.Interpreter.Execute.{
  execute, execute_load, execute_store, execute_op, execute_op_imm, execute_jal, transfer, retire,
  advance,
}
use risc_e.Interpreter.Run.{
  initial_cpu, reset_profile_stats, reset, new, step, run, run_instruction, profile, enter_block,
}
use risc_e.Interpreter.Halting.{step_n, step_n-halted}
use risc_e.Interpreter.Halting.Exit.{ecall_word, run_exits, run_faults}
use risc_e.Interpreter.Outcomes.{halted}
use risc_e.Interpreter.Invariant.{IsWellFormed}
use risc_e.Interpreter.Invariant.Run.{IsSegment, new-IsWellFormed, step-IsWellFormed}
use risc_e.Interpreter.Accounting.Step.{IsAccounted, step-IsAccounted}
use risc_e.Interpreter.Loads.{lw, load_outcome, execute_load-outcome}
use risc_e.Interpreter.Stores.{sw, low_bytes, store_outcome, execute_store-outcome}

abbrev p : BranchPredictor
p = AlwaysNotTaken.predictor

abbrev image : LoadedElf
image = record {
  entry = 0x1000;
  end_vaddr = 0x1008;
  segments =
      record {
        vaddr = 0x1000;
        size = 8;
        flags = 5;
        bytes = 0x93 ∷ 0x08 ∷ 0xd0 ∷ 0x05 ∷ 0x73 ∷ 0x00 ∷ 0x00 ∷ 0x00 ∷ [];
      }
      ∷ [];
}

image-IsSegment : All IsSegment image.segments
image-IsSegment = (record { vaddr = omega arith; bytes = ground arith }, tt)

abbrev start : Interpreter p
start = new image (some tt)

start-IsWellFormed : IsWellFormed start
start-IsWellFormed = new-IsWellFormed image (some tt) image-IsSegment

step-IsWellFormed_example : IsWellFormed (step start)
step-IsWellFormed_example = step-IsWellFormed start start-IsWellFormed

abbrev stopped : Interpreter p
stopped = record start {
  cpu = record (initial_cpu 0x1000) { running = false; halt_reason = HaltReason.ecall };
}

step_n-halted_example : step_n 3 stopped ≡ stopped
step_n-halted_example = step_n-halted 3 stopped refl

-- The code page of the image and nothing else.
abbrev code_page : Page
code_page offset = get_or (0x93 ∷ 0x08 ∷ 0xd0 ∷ 0x05 ∷ 0x73 ∷ []) offset 0

abbrev code_memory : PhysicalMemory
code_memory = record {
  pages = λ index. if index == 1 then some code_page else none;
  has_sink = true;
}

abbrev ready : Interpreter p
ready = record start { mem = code_memory }

-- The machine of `ready` after `addi a7, zero, 93`.
first_instruction :
    ((step_n 1 ready).cpu.running ≡ true)
    × (fetch32 (step_n 1 ready).mem (step_n 1 ready).cpu.pc ≡ (ecall_word, []))
    × ((step_n 1 ready).cpu.x 17 ≡ 93)
unfolding step deliver fetch32 fetch_bytes check_alignment check_range get_page_ptr raise_fault new
    reset reset_profile_stats run_instruction profile enter_block decode_raw_inst imm_of_format
    classify_opcode decode_i_imm execute execute_op_imm alu_imm retire advance write_register
first_instruction = (refl, refl, refl)

run_exits_example :
    run (1 + 1 + 5) ready ≡ some (step_n (1 + 1) ready, some ((step_n 1 ready).cpu.x 10))
run_exits_example = run_exits 1 5 ready first_instruction.0 first_instruction.1 first_instruction.2

-- `j 0x2000`, which is not mapped.
abbrev astray_page : Page
astray_page offset = get_or (0x6f ∷ 0x10 ∷ 0 ∷ 0 ∷ []) offset 0

abbrev astray : Interpreter p
astray = record start {
  mem = record { pages = λ index. if index == 1 then some astray_page else none; has_sink = true };
}

abbrev unmapped : Trap
unmapped = record { cause = TrapCause.instruction_access_fault; value = 0x2000 }

jumped :
    ((step_n 1 astray).cpu.running ≡ true)
    × (fetch32 (step_n 1 astray).mem (step_n 1 astray).cpu.pc ≡ (0, unmapped ∷ []))
unfolding step deliver fetch32 fetch_bytes check_alignment check_range get_page_ptr raise_fault new
    reset reset_profile_stats run_instruction profile enter_block decode_raw_inst imm_of_format
    classify_opcode decode_j_imm execute execute_jal write_register transfer
jumped = (refl, refl)

run_faults_example :
    run (1 + 1 + 5) astray
    ≡ some (
      halted
          (record (step_n 1 astray) { inst_count = (step_n 1 astray).inst_count + 1 })
          TrapCause.instruction_access_fault
          0x2000,
      none,
    )
run_faults_example = run_faults 1 5 0 unmapped astray jumped.0 jumped.1

abbrev two_traps : List Trap
two_traps =
    record { cause = TrapCause.load_fault; value = 4 }
    ∷ record { cause = TrapCause.store_fault; value = 8 }
    ∷ []

-- `sub x5, x6, x7`, `lw x5, 4(x2)` and `sw x5, -4(x2)`.
abbrev sub_word : DecodedInstruction
sub_word = record {
  addr = 0x1000;
  raw = 0x407302b3;
  opcode = 0x33;
  rd = 5;
  funct3 = 0;
  rs1 = 6;
  rs2 = 7;
  funct7 = 32;
  imm = 0;
}

abbrev lw_word : DecodedInstruction
lw_word = record {
  addr = 0x1000;
  raw = 0x412283;
  opcode = 0x03;
  rd = 5;
  funct3 = 2;
  rs1 = 2;
  rs2 = 4;
  funct7 = 0;
  imm = 4;
}

abbrev sw_word : DecodedInstruction
sw_word = record {
  addr = 0x1000;
  raw = 0xfe512e23;
  opcode = 0x23;
  rd = 28;
  funct3 = 2;
  rs1 = 2;
  rs2 = 5;
  funct7 = 127;
  imm = 0xfffffffc;
}

branch_taken_iff_example :
    (branch_taken 4 0xffffffff 1 ≢ none)
    × ((branch_taken 4 0xffffffff 1 ≡ some true) ↔ Holds blt 0xffffffff 1)
branch_taken_iff_example = branch_taken_iff blt 0xffffffff 1 (omega arith) (omega arith)

execute_op-Ends_example :
    Ends start sub_word
      (IsRegisterOperation sub_word)
      (alu_op sub_word (start.cpu.x 6) (start.cpu.x 7))
      (execute_op start sub_word)
execute_op-Ends_example = execute_op-Ends start sub_word (omega arith)

alu_op-IsResult_example : (r : ℕ) × (alu_op sub_word 3 5 ≡ some r) × IsResult sub 3 5 r
alu_op-IsResult_example = alu_op-IsResult sub_word 3 5 (omega arith) (omega arith) sub refl refl

running : start.cpu.running ≡ true
unfolding new reset reset_profile_stats
running = refl

execute_load-outcome_example :
    execute_load start lw_word ≡ load_outcome lw start lw_word (add32 (start.cpu.x 2) 4)
execute_load-outcome_example = execute_load-outcome lw start lw_word start-IsWellFormed running refl

store_address : 0x7ffffffc ≡ add32 (start.cpu.x 2) 0xfffffffc
unfolding new reset reset_profile_stats
store_address = refl

execute_store-outcome_example :
    let success = can_store 0x7ffffffc (omega arith) start.mem 4 in
    (m : PhysicalMemory) × (execute_store start sw_word
      ≡ store_outcome sw success start 0x7ffffffc m)
    × ((b : ℕ)
        → byte_at m b ≡ (
            if success
            then overlay 0x7ffffffc
                (omega arith)
                4
                (low_bytes sw (start.cpu.x 5))
                (byte_at start.mem)
                b
            else byte_at start.mem b))
execute_store-outcome_example =
    execute_store-outcome sw start sw_word 0x7ffffffc (omega arith) start-IsWellFormed running refl
      store_address

boot-IsWellFormed_example :
    Succeeds (λ (elf : LoadedElf). IsWellFormed (new {p = p} elf (some tt))) (load_elf exit_file)
boot-IsWellFormed_example = boot-IsWellFormed p (some tt) exit_file exit_file-IsByte

start-IsAccounted : IsAccounted start
unfolding new reset reset_profile_stats Trace.reset Profile.reset
start-IsAccounted = record {
  branches = refl;
  transfers = omega arith;
  work = omega arith;
  profiled = inl refl;
}

step-IsAccounted_example : IsAccounted (step start)
step-IsAccounted_example = step-IsAccounted start start-IsAccounted
