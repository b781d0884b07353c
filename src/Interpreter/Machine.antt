-- ===== src/Interpreter/Machine.antt =====
-- The interpreter's state and its traps: include/risc-e/interpreter/interpreter.hpp, and
-- raise_trap and handle_trap of src/interpreter/interpreter.cpp.
use risc_e.Base.{
  ℕ, zero, suc, ◌+◌, ◌*◌, ◌-◌, ◌^◌, Bool, true, false, Option, List, [], ◌∷◌, ◌++◌, update, ltb,
  ◌==◌, ◌||◌, if◌then◌else◌,
}
use risc_e.Base.Word.{add32}
use risc_e.Cpu.Trap.{TrapCause, Trap, code}
use risc_e.Cpu.State.{CpuState, HaltReason}
use risc_e.Memory.{PhysicalMemory, load8, map_region}
use risc_e.Predictor.{BranchPredictor}
use risc_e.Predictor.Stats.{BranchStats}
use risc_e.ICache.Profile.{ICacheStats}
use risc_e.DCache.Trace.{DCacheStats}

abbrev pub initial_stack_pointer : ℕ
initial_stack_pointer = 0x80000000

abbrev pub stack_size : ℕ
stack_size = 8 * 1024 * 1024

abbrev pub stack_bottom : ℕ
stack_bottom = initial_stack_pointer - stack_size

pub record Interpreter (p : BranchPredictor) : Type 0 where
  pub entry : ℕ
  pub heap_break : ℕ
  pub inst_count : ℕ
  pub predictor : Option p.State
  pub branch_stats : BranchStats
  pub profile_stats : ICacheStats
  pub access_trace : DCacheStats
  pub program_output : List ℕ
  pub block_entering : Bool
  pub current_block_id : ℕ
  pub cpu : CpuState
  pub mem : PhysicalMemory

-- Register 0 is never written.
unfoldable pub write_register : CpuState → ℕ → ℕ → CpuState
write_register state reg value =
    if reg == 0 then state else record state { x = update state.x reg value }

module _ {p : BranchPredictor} where
  -- The trap state that raise_trap sets before it calls handle_trap.
  unfoldable pub enter_trap : Interpreter p → TrapCause → ℕ → Interpreter p
  enter_trap i cause value = record i {
    cpu = record (i.cpu) { mepc = i.cpu.pc; mcause = code cause; mtval = value };
  }

  -- The default case of handle_trap: faults and misaligned accesses halt execution.
  unfoldable pub halt_on_trap : Interpreter p → Interpreter p
  halt_on_trap i = record i {
    cpu = record (i.cpu) { halt_reason = HaltReason.trap; running = false };
  }

  -- raise_trap for the causes that the memory reports, none of which is an environment call.
  unfoldable pub raise_fault_trap : Interpreter p → Trap → Interpreter p
  raise_fault_trap i t = halt_on_trap (enter_trap i t.cause t.value)

  -- The calls that a memory operation makes of its trap sink, in order.
  unfoldable pub deliver : Interpreter p → List Trap → Interpreter p
  deliver i [] = i
  deliver i (t ∷ ts) = deliver (raise_fault_trap i t) ts

  -- `state_.x[10] = value; state_.pc = state_.mepc + 4`.
  unfoldable pub return_to_program : Interpreter p → ℕ → Interpreter p
  return_to_program i value = record i {
    cpu = record (i.cpu) { x = update i.cpu.x 10 value; pc = add32 i.cpu.mepc 4 };
  }

  -- The loop of the write system call from byte `k`, with `left` bytes to go. A fault halts the
  -- machine and leaves the loop.
  unfoldable pub write_loop : ℕ → ℕ → ℕ → Interpreter p → Interpreter p
  write_loop buf zero k i = i
  write_loop buf (suc left) k i =
      let byte = load8 i.mem (add32 buf k) in
      let j = deliver i byte.1 in
      elim j.cpu.running [
        | false ↦ j
        | true ↦
            write_loop buf left (k + 1)
              (record j { program_output = j.program_output ++ byte.0 ∷ [] })
      ]

  -- write(fd, buf, count)
  unfoldable pub syscall_write : Interpreter p → Interpreter p
  syscall_write i =
      let fd = i.cpu.x 10 in
      let count = i.cpu.x 12 in
      if fd == 1 || fd == 2
      then (let j = write_loop (i.cpu.x 11) count 0 i in
          if j.cpu.running then return_to_program j count else j)
      else return_to_program i (2 ^ 32 - 1)

  -- exit(code)
  unfoldable pub syscall_exit : Interpreter p → Interpreter p
  syscall_exit i = record i {
    cpu = record (i.cpu) {
      halt_reason = HaltReason.ecall;
      running = false;
      pc = add32 i.cpu.mepc 4;
    };
  }

  -- brk(addr)
  unfoldable pub syscall_brk : Interpreter p → Interpreter p
  syscall_brk i =
      let requested = i.cpu.x 10 in
      if requested == 0 || ltb requested i.heap_break || ltb stack_bottom requested
      then return_to_program i i.heap_break
      else if ltb i.heap_break requested
      then return_to_program
          (record i {
            mem = map_region i.mem i.heap_break (requested - i.heap_break);
            heap_break = requested;
          })
          requested
      else return_to_program i i.heap_break

  -- The switch over a7 of an environment call.
  unfoldable pub environment_call : Interpreter p → Interpreter p
  environment_call i =
      let number = i.cpu.x 17 in
      if number == 64
      then syscall_write i
      else if number == 93
      then syscall_exit i
      else if number == 214
      then syscall_brk i
      else return_to_program i (2 ^ 32 - 1)

  unfoldable pub handle_trap : Interpreter p → Interpreter p
  handle_trap i =
      if i.cpu.mcause == code TrapCause.environment_call_from_mmode
      then environment_call i
      else halt_on_trap i

  unfoldable pub raise_trap : Interpreter p → TrapCause → ℕ → Interpreter p
  raise_trap i cause value = handle_trap (enter_trap i cause value)
