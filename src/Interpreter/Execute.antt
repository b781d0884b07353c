-- ===== src/Interpreter/Execute.antt =====
-- The execution of one decoded instruction: execute and the execute_* functions of
-- src/interpreter/interpreter.cpp.
use Prim.Native.Nat.{bit_and}
use risc_e.Base.{
  ℕ, ◌+◌, ◌-◌, ◌%◌, ◌^◌, Bool, true, false, not, Option, none, some, List, update, ltb, ◌==◌, ◌&&◌,
  ◌||◌, if◌then◌else◌,
}
use risc_e.Base.Word.{u8, add32}
use risc_e.Cpu.Trap.{TrapCause, Trap}
use risc_e.Cpu.State.{HaltReason}
use risc_e.Decoder.{DecodedInstruction}
use risc_e.Decoder.Opcodes
use risc_e.Memory.{PhysicalMemory, load8, load16, load32, store8, store16, store32}
use risc_e.Predictor.{BranchPredictor}
use risc_e.Predictor.Context.{from_decoded}
use risc_e.Predictor.Stats.{BranchStats, record_control_transfer}
use risc_e.DCache.Trace.{DCacheKind, record_access}
use risc_e.Interpreter.Alu.{branch_taken, alu_imm, alu_op}
use risc_e.Interpreter.Machine.{Interpreter, write_register, raise_trap, deliver}

-- `static_cast<int8_t>` and `static_cast<int16_t>`, widened to 32 bits.
unfoldable pub sext8 : ℕ → ℕ
sext8 value = if ltb value 128 then value else value + (2 ^ 32 - 256)

unfoldable pub sext16 : ℕ → ℕ
sext16 value = if ltb value 32768 then value else value + (2 ^ 32 - 65536)

-- The counters of execute_branch.
unfoldable pub count_branch : ℕ → Bool → BranchStats → BranchStats
count_branch funct3 taken s =
    if taken
    then record s {
      total = s.total + 1;
      taken = s.taken + 1;
      type_total = update s.type_total funct3 (s.type_total funct3 + 1);
      type_taken = update s.type_taken funct3 (s.type_taken funct3 + 1);
    }
    else record s {
      total = s.total + 1;
      not_taken = s.not_taken + 1;
      type_total = update s.type_total funct3 (s.type_total funct3 + 1);
    }

-- The reads of execute_load: the value and the calls of the trap sink. `none` is the default case.
unfoldable pub load_value : PhysicalMemory → ℕ → ℕ → Option (ℕ × List Trap)
load_value m funct3 address =
    if funct3 == Opcodes.f3_lb
    then (let (value, ts) = load8 m address in some (sext8 value, ts))
    else if funct3 == Opcodes.f3_lh
    then (let (value, ts) = load16 m address in some (sext16 value, ts))
    else if funct3 == Opcodes.f3_lw
    then some (load32 m address)
    else if funct3 == Opcodes.f3_lbu
    then some (load8 m address)
    else if funct3 == Opcodes.f3_lhu
    then some (load16 m address)
    else none

abbrev pub load_size : ℕ → ℕ
load_size funct3 =
    if funct3 == Opcodes.f3_lb || funct3 == Opcodes.f3_lbu
    then 1
    else if funct3 == Opcodes.f3_lh || funct3 == Opcodes.f3_lhu
    then 2
    else 4

-- The writes of execute_store.
unfoldable pub store_value : PhysicalMemory → ℕ → ℕ → ℕ → Option (PhysicalMemory × List Trap)
store_value m funct3 address value =
    if funct3 == Opcodes.f3_sb
    then some (store8 m address (u8 value))
    else if funct3 == Opcodes.f3_sh
    then some (store16 m address (value % 2 ^ 16))
    else if funct3 == Opcodes.f3_sw
    then some (store32 m address value)
    else none

abbrev pub store_size : ℕ → ℕ
store_size funct3 = if funct3 == Opcodes.f3_sb then 1 else if funct3 == Opcodes.f3_sh then 2 else 4

module _ {p : BranchPredictor} where
  -- `state.pc += 4`.
  unfoldable pub advance : Interpreter p → Interpreter p
  advance i = record i { cpu = record (i.cpu) { pc = add32 i.cpu.pc 4 } }

  unfoldable pub illegal : Interpreter p → DecodedInstruction → Interpreter p
  illegal i d = raise_trap i TrapCause.illegal_instruction d.raw

  -- `write_register(state, d.rd, result); state.pc += 4`.
  unfoldable pub retire : Interpreter p → ℕ → ℕ → Interpreter p
  retire i rd result = advance (record i { cpu = write_register i.cpu rd result })

  -- record_control_transfer, then `state_.pc = target`.
  unfoldable pub transfer : Interpreter p → DecodedInstruction → Bool → ℕ → Interpreter p
  transfer i d taken target =
      let r =
        record_control_transfer p i.branch_stats i.predictor (from_decoded d) taken target
          i.inst_count in
      record i { branch_stats = r.0; predictor = r.1; cpu = record (i.cpu) { pc = target } }

  unfoldable pub execute_branch : Interpreter p → DecodedInstruction → Interpreter p
  execute_branch i d = elim (branch_taken d.funct3 (i.cpu.x d.rs1) (i.cpu.x d.rs2)) [
    | none ↦ illegal i d
    | some taken ↦
        transfer (record i { branch_stats = count_branch d.funct3 taken i.branch_stats }) d taken
          (if taken then add32 i.cpu.pc d.imm else add32 i.cpu.pc 4)
  ]

  unfoldable pub execute_op_imm : Interpreter p → DecodedInstruction → Interpreter p
  execute_op_imm i d = elim (alu_imm d (i.cpu.x d.rs1)) [
    | none ↦ illegal i d
    | some result ↦ retire i d.rd result
  ]

  unfoldable pub execute_op : Interpreter p → DecodedInstruction → Interpreter p
  execute_op i d = elim (alu_op d (i.cpu.x d.rs1) (i.cpu.x d.rs2)) [
    | none ↦ illegal i d
    | some result ↦ retire i d.rd result
  ]

  -- What follows the switch of execute_load.
  unfoldable pub finish_load : Interpreter p → DecodedInstruction → ℕ → ℕ → Interpreter p
  finish_load i d address result =
      if not i.cpu.running
      then i
      else retire
          (record i {
            access_trace =
                record_access i.access_trace DCacheKind.load address (load_size d.funct3);
          })
          d.rd result

  unfoldable pub execute_load : Interpreter p → DecodedInstruction → Interpreter p
  execute_load i d =
      let address = add32 (i.cpu.x d.rs1) d.imm in
      elim (load_value i.mem d.funct3 address) [
        | none ↦ illegal i d
        | some r ↦ finish_load (deliver i r.1) d address r.0
      ]

  -- What follows the switch of execute_store.
  unfoldable pub finish_store : Interpreter p → DecodedInstruction → ℕ → Interpreter p
  finish_store i d address =
      if not i.cpu.running
      then i
      else advance (record i {
        access_trace = record_access i.access_trace DCacheKind.store address (store_size d.funct3);
      })

  unfoldable pub execute_store : Interpreter p → DecodedInstruction → Interpreter p
  execute_store i d =
      let address = add32 (i.cpu.x d.rs1) d.imm in
      elim (store_value i.mem d.funct3 address (i.cpu.x d.rs2)) [
        | none ↦ finish_store (illegal i d) d address
        | some r ↦ finish_store (deliver (record i { mem = r.0 }) r.1) d address
      ]

  unfoldable pub halt_on_ebreak : Interpreter p → Interpreter p
  halt_on_ebreak i =
      advance
        (record i { cpu = record (i.cpu) { halt_reason = HaltReason.ebreak; running = false } })

  unfoldable pub execute_system : Interpreter p → DecodedInstruction → Interpreter p
  execute_system i d =
      let valid_env = d.funct3 == 0 && d.rd == 0 && d.rs1 == 0 in
      if d.imm == 0 && valid_env
      then raise_trap i TrapCause.environment_call_from_mmode 0
      else if d.imm == 1 && valid_env
      then halt_on_ebreak i
      else illegal i d

  unfoldable pub execute_jal : Interpreter p → DecodedInstruction → Interpreter p
  execute_jal i d =
      transfer (record i { cpu = write_register i.cpu d.rd (add32 i.cpu.pc 4) }) d true
        (add32 i.cpu.pc d.imm)

  unfoldable pub execute_jalr : Interpreter p → DecodedInstruction → Interpreter p
  execute_jalr i d =
      if not (d.funct3 == 0)
      then illegal i d
      else transfer (record i { cpu = write_register i.cpu d.rd (add32 i.cpu.pc 4) }) d true
          (bit_and (add32 (i.cpu.x d.rs1) d.imm) 0xFFFFFFFE)

  unfoldable pub execute_misc_mem : Interpreter p → DecodedInstruction → Interpreter p
  execute_misc_mem i d = if ltb 1 d.funct3 then illegal i d else advance i

  unfoldable pub execute : Interpreter p → DecodedInstruction → Interpreter p
  execute i d =
      if d.opcode == Opcodes.lui
      then retire i d.rd d.imm
      else if d.opcode == Opcodes.auipc
      then retire i d.rd (add32 i.cpu.pc d.imm)
      else if d.opcode == Opcodes.jal
      then execute_jal i d
      else if d.opcode == Opcodes.jalr
      then execute_jalr i d
      else if d.opcode == Opcodes.branch
      then execute_branch i d
      else if d.opcode == Opcodes.load
      then execute_load i d
      else if d.opcode == Opcodes.store
      then execute_store i d
      else if d.opcode == Opcodes.op_imm
      then execute_op_imm i d
      else if d.opcode == Opcodes.op
      then execute_op i d
      else if d.opcode == Opcodes.system
      then execute_system i d
      else if d.opcode == Opcodes.misc_mem
      then execute_misc_mem i d
      else illegal i d
