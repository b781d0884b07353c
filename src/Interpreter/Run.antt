-- ===== src/Interpreter/Run.antt =====
-- The life of an interpreter: its constructor, reset, step, run, reset_profile_stats and
-- get_register in src/interpreter/interpreter.cpp.
-- `run` loops as long as the program does: the model gives it fuel and returns `none` when the fuel
-- runs out first.
use Prim.Native.Nat.{bit_and}
use risc_e.Base.{
  ℕ, zero, suc, ◌+◌, Bool, true, false, not, Option, none, some, List, [], ◌∷◌, get_or, leb, ◌==◌,
  ◌||◌, if◌then◌else◌,
}
use risc_e.Base.Int.{ℤ, pos, negsuc}
use risc_e.Base.Word.{u32, add32, sub32, not32}
use risc_e.Cpu.State.{CpuState, HaltReason}
use risc_e.Decoder.{DecodedInstruction, decode_raw_inst}
use risc_e.Decoder.Opcodes
use risc_e.Memory.{PhysicalMemory, empty, set_trap_sink, map_region, store8, fetch32}
use risc_e.Predictor.{BranchPredictor}
use risc_e.Predictor.Stats
use risc_e.ICache.Profile
use risc_e.DCache.Trace
use risc_e.Elf.{LoadedSegment, LoadedElf}
use risc_e.Interpreter.Machine.{
  Interpreter, initial_stack_pointer, stack_size, stack_bottom, deliver,
}
use risc_e.Interpreter.Execute.{execute}

abbrev pub reg_count : ℕ
reg_count = 32

unfoldable pub align_up : ℕ → ℕ → ℕ
align_up value alignment = bit_and (sub32 (add32 value alignment) 1) (not32 (sub32 alignment 1))

-- The first loop of load_elf_segments.
unfoldable pub map_segments : PhysicalMemory → List LoadedSegment → PhysicalMemory
map_segments m [] = m
map_segments m (s ∷ rest) = map_segments (map_region m s.vaddr s.size) rest

-- The copy of one segment from byte `index`, with `left` bytes to go. A call of the trap sink changes
-- only what `reset` sets again at the end of the constructor.
unfoldable pub copy_segment : PhysicalMemory → LoadedSegment → ℕ → ℕ → PhysicalMemory
copy_segment m s zero index = m
copy_segment m s (suc left) index =
    copy_segment (store8 m (add32 s.vaddr (u32 index)) (get_or s.bytes index 0)).0 s left
      (index + 1)

unfoldable pub copy_segments : PhysicalMemory → List LoadedSegment → PhysicalMemory
copy_segments m [] = m
copy_segments m (s ∷ rest) = copy_segments (copy_segment m s s.size 0) rest

unfoldable pub load_elf_segments : PhysicalMemory → LoadedElf → PhysicalMemory
load_elf_segments m elf = copy_segments (map_segments m elf.segments) elf.segments

abbrev pub initial_registers : ℕ → ℕ
initial_registers reg = if reg == 2 then initial_stack_pointer else 0

abbrev pub initial_cpu : ℕ → CpuState
initial_cpu entry = record {
  x = initial_registers;
  pc = entry;
  running = true;
  halt_reason = HaltReason.none;
  mepc = 0;
  mcause = 0;
  mtval = 0;
}

abbrev pub reset_predictor : (p : BranchPredictor) → Option p.State → Option p.State
reset_predictor p none = none
reset_predictor p (some st) = some (p.reset st)

abbrev pub is_control_transfer : DecodedInstruction → Bool
is_control_transfer d =
    d.opcode == Opcodes.branch || d.opcode == Opcodes.jal || d.opcode == Opcodes.jalr

module _ {p : BranchPredictor} where
  unfoldable pub reset_profile_stats : Interpreter p → Interpreter p
  reset_profile_stats i = record i {
    profile_stats = Profile.reset i.profile_stats;
    block_entering = true;
    current_block_id = Profile.no_block;
  }

  unfoldable pub reset : Interpreter p → Interpreter p
  reset i =
      let j = reset_profile_stats (record i { cpu = initial_cpu i.entry; inst_count = 0 }) in
      record j {
        access_trace = Trace.reset j.access_trace;
        predictor = reset_predictor p j.predictor;
      }

  -- Interpreter::Interpreter(elf, predictor).
  unfoldable pub new : LoadedElf → Option p.State → Interpreter p
  new elf predictor = reset (record {
    entry = u32 elf.entry;
    heap_break = align_up (u32 elf.end_vaddr) 16;
    inst_count = 0;
    predictor = predictor;
    branch_stats = Stats.fresh;
    profile_stats = Profile.fresh;
    access_trace = Trace.fresh;
    program_output = [];
    block_entering = true;
    current_block_id = Profile.no_block;
    cpu = initial_cpu (u32 elf.entry);
    mem = load_elf_segments (map_region (set_trap_sink empty) stack_bottom stack_size) elf;
  })

  -- record_block_entry where control has landed.
  unfoldable pub enter_block : Interpreter p → Interpreter p
  enter_block i =
      if i.block_entering
      then (let r = Profile.record_block_entry i.profile_stats i.cpu.pc in
          record i { profile_stats = r.0; current_block_id = r.1; block_entering = false })
      else i

  -- The profile of the instruction at the program counter.
  unfoldable pub profile : Interpreter p → Interpreter p
  profile i =
      let j =
        enter_block
          (record i { profile_stats = Profile.record_instruction i.profile_stats i.cpu.pc }) in
      record j {
        profile_stats = Profile.record_block_instruction j.profile_stats j.current_block_id;
      }

  -- What step does with the word that it fetched.
  unfoldable pub run_instruction : Interpreter p → ℕ → Interpreter p
  run_instruction i inst =
      let d = decode_raw_inst inst i.cpu.pc in
      record (execute (profile i) d) { block_entering = is_control_transfer d }

  unfoldable pub step : Interpreter p → Interpreter p
  step i =
      if not i.cpu.running
      then i
      else (let fetched = fetch32 i.mem i.cpu.pc in
          let j = deliver (record i { inst_count = i.inst_count + 1 }) fetched.1 in
          if not j.cpu.running then j else run_instruction j fetched.0)

  -- The loop of `run`.
  unfoldable pub run_loop : ℕ → Interpreter p → Option (Interpreter p)
  run_loop zero i = if i.cpu.running then none else some i
  run_loop (suc fuel) i = elim i.cpu.running [ true ↦ run_loop fuel (step i) | false ↦ some i ]

  -- What `run` returns for the state in which it stops.
  unfoldable pub exit_code : Interpreter p → Option ℕ
  exit_code i = elim i.cpu.halt_reason [ HaltReason.ecall ↦ some (i.cpu.x 10) | _ ↦ none ]

  unfoldable pub run : ℕ → Interpreter p → Option (Interpreter p × Option ℕ)
  run fuel i = elim (run_loop fuel i) [ none ↦ none | some j ↦ some (j, exit_code j) ]

  pub get_register : Interpreter p → ℤ → ℕ
  get_register i (negsuc n) = 0
  get_register i (pos idx) = if leb reg_count idx then 0 else i.cpu.x idx
