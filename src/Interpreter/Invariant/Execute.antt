-- ===== src/Interpreter/Invariant/Execute.antt =====
-- The well-formedness of an interpreter through execute of src/interpreter/interpreter.cpp.
use risc_e.Base.{
  ℕ, ◌^◌, ◌<◌, ◌≡◌, arith, Bool, true, not, Option, none, some, List, ltb, ◌==◌, ◌&&◌, Option-cases,
  if-cases, inl, inr, ◌∙◌,
}
use risc_e.Base.Word.{add32, u8}
use risc_e.Base.Bits.{bit_and-le}
use risc_e.Cpu.Trap.{Trap}
use risc_e.Decoder.{DecodedInstruction}
use risc_e.Decoder.Opcodes
use risc_e.Memory.{PhysicalMemory, store8, store16, store32}
use risc_e.Memory.Faults.{store8-IsSafe, store16-IsSafe, store32-IsSafe}
use risc_e.Memory.Ranges.{load8-lt, load16-lt, load32-lt, store8-IsBytes}
use risc_e.Memory.Stores.{store16-IsBytes, store32-IsBytes}
use risc_e.Predictor.{BranchPredictor}
use risc_e.Interpreter.Alu.{branch_taken, alu_imm, alu_op}
use risc_e.Interpreter.Bounds.{alu_imm-lt, alu_op-lt}
use risc_e.Interpreter.Machine.{Interpreter, write_register}
use risc_e.Interpreter.Execute.{
  sext8, sext16, load_value, store_value, advance, illegal, retire, transfer, execute_branch,
  execute_op_imm, execute_op, finish_load, execute_load, finish_store, execute_store,
  halt_on_ebreak, execute_system, execute_jal, execute_jalr, execute_misc_mem, execute,
}
use risc_e.Interpreter.Invariant.{
  IsMemory, IsWellFormed, write_register-IsCpu, jump-IsCpu, deliver-IsWellFormed,
  raise_trap-IsWellFormed,
}

module _ (m : PhysicalMemory) (funct3 address : ℕ) (h : IsMemory m) (bound : address < 2 ^ 32) where
  load_value-lt : (r : ℕ × List Trap) → load_value m funct3 address ≡ some r → r.0 < 2 ^ 32
  unfolding load_value sext8 sext16
  load_value-lt r e = ground (
    arith,
    load8-lt m h.bytes address,
    load16-lt m h.bytes address bound,
    load32-lt m h.bytes address bound,
  )

  store8-IsMemory : (v : ℕ) → IsMemory (store8 m address (u8 v)).0
  store8-IsMemory v = record {
    bytes = store8-IsBytes m address (u8 v) (omega arith) h.bytes;
    sink = (store8-IsSafe m address (u8 v)).0 ∙ h.sink;
  }

  store16-IsMemory : (v : ℕ) → IsMemory (store16 m address v).0
  store16-IsMemory v = record {
    bytes = store16-IsBytes address bound m v h.bytes;
    sink = (store16-IsSafe m address v).0 ∙ h.sink;
  }

  store32-IsMemory : (v : ℕ) → IsMemory (store32 m address v).0
  store32-IsMemory v = record {
    bytes = store32-IsBytes address bound m v h.bytes;
    sink = (store32-IsSafe m address v).0 ∙ h.sink;
  }

  -- What holds of the memory after a store, if there is one.
  abbrev Stored : Option (PhysicalMemory × List Trap) → Type 0
  Stored none = Unit
  Stored (some r) = IsMemory r.0

  store_value-IsMemory : (v : ℕ) → Stored (store_value m funct3 address v)
  unfolding store_value
  store_value-IsMemory v =
      if-cases Stored (funct3 == Opcodes.f3_sb) _ _ (λ _. store8-IsMemory v)
        λ _.
          if-cases Stored (funct3 == Opcodes.f3_sh) _ _ (λ _. store16-IsMemory _)
            λ _. if-cases Stored (funct3 == Opcodes.f3_sw) _ _ (λ _. store32-IsMemory v) λ _. tt

module _ {p : BranchPredictor} where
  advance-IsWellFormed : (i : Interpreter p) → IsWellFormed i → IsWellFormed (advance i)
  unfolding advance
  advance-IsWellFormed i h = record {
    cpu = jump-IsCpu i.cpu _ h.cpu (omega arith);
    mem = h.mem;
    heap = h.heap;
  }

  retire-IsWellFormed :
      (i : Interpreter p) (rd result : ℕ)
      → result < 2 ^ 32
      → IsWellFormed i
      → IsWellFormed (retire i rd result)
  unfolding retire
  retire-IsWellFormed i rd result bound h = advance-IsWellFormed _ (record {
    cpu = write_register-IsCpu i.cpu rd result h.cpu bound;
    mem = h.mem;
    heap = h.heap;
  })

  transfer-IsWellFormed :
      (i : Interpreter p) (d : DecodedInstruction) (taken : Bool) (target : ℕ)
      → target < 2 ^ 32
      → IsWellFormed i
      → IsWellFormed (transfer i d taken target)
  unfolding transfer
  transfer-IsWellFormed i d taken target bound h = record {
    cpu = jump-IsCpu i.cpu target h.cpu bound;
    mem = h.mem;
    heap = h.heap;
  }

  module _ (i : Interpreter p) (d : DecodedInstruction) (imm : d.imm < 2 ^ 32)
      (h : IsWellFormed i) where
    illegal-IsWellFormed : IsWellFormed (illegal i d)
    unfolding illegal
    illegal-IsWellFormed = raise_trap-IsWellFormed i _ _ h

    branch-IsWellFormed : IsWellFormed (execute_branch i d)
    unfolding execute_branch
    branch-IsWellFormed =
        elim (Option-cases (branch_taken d.funct3 (i.cpu.x d.rs1) (i.cpu.x d.rs2))) [
          | inl e ↦ rw (e, execute_branch) illegal-IsWellFormed
          | inr (taken, e) ↦
              rw (e, execute_branch)
                (transfer-IsWellFormed _ d taken _ (ground arith)
                  (record { cpu = h.cpu; mem = h.mem; heap = h.heap }))
        ]

    op_imm-IsWellFormed : IsWellFormed (execute_op_imm i d)
    unfolding execute_op_imm
    op_imm-IsWellFormed = elim (Option-cases (alu_imm d (i.cpu.x d.rs1))) [
      | inl e ↦ rw (e, execute_op_imm) illegal-IsWellFormed
      | inr (v, e) ↦
          rw (e, execute_op_imm)
            (retire-IsWellFormed i d.rd v (alu_imm-lt d _ v (h.cpu.registers d.rs1) imm e) h)
    ]

    op-IsWellFormed : IsWellFormed (execute_op i d)
    unfolding execute_op
    op-IsWellFormed = elim (Option-cases (alu_op d (i.cpu.x d.rs1) (i.cpu.x d.rs2))) [
      | inl e ↦ rw (e, execute_op) illegal-IsWellFormed
      | inr (v, e) ↦
          rw (e, execute_op)
            (retire-IsWellFormed i d.rd v
              (alu_op-lt d _ v (h.cpu.registers d.rs1) _ (h.cpu.registers d.rs2) e) h)
    ]

    finish_load-IsWellFormed :
        (address result : ℕ) → result < 2 ^ 32 → IsWellFormed (finish_load i d address result)
    unfolding finish_load
    finish_load-IsWellFormed address result bound =
        if-cases IsWellFormed (not i.cpu.running) _ _ (λ _. h)
          λ _.
            retire-IsWellFormed _ d.rd result bound
              (record { cpu = h.cpu; mem = h.mem; heap = h.heap })

    finish_store-IsWellFormed : (address : ℕ) → IsWellFormed (finish_store i d address)
    unfolding finish_store
    finish_store-IsWellFormed address =
        if-cases IsWellFormed (not i.cpu.running) _ _ (λ _. h)
          λ _. advance-IsWellFormed _ (record { cpu = h.cpu; mem = h.mem; heap = h.heap })

    ebreak-IsWellFormed : IsWellFormed (halt_on_ebreak i)
    unfolding halt_on_ebreak
    ebreak-IsWellFormed = advance-IsWellFormed _ (record {
      cpu = record {
        zero_register = h.cpu.zero_register;
        registers = h.cpu.registers;
        pc = h.cpu.pc;
        mepc = h.cpu.mepc;
      };
      mem = h.mem;
      heap = h.heap;
    })

    system-IsWellFormed : IsWellFormed (execute_system i d)
    unfolding execute_system
    system-IsWellFormed =
        if-cases IsWellFormed (d.imm == 0 && (d.funct3 == 0 && d.rd == 0 && d.rs1 == 0)) _ _
          (λ _. raise_trap-IsWellFormed i _ _ h)
          λ _.
            if-cases IsWellFormed (d.imm == 1 && (d.funct3 == 0 && d.rd == 0 && d.rs1 == 0)) _ _
              (λ _. ebreak-IsWellFormed) (λ _. illegal-IsWellFormed)

    linked-IsWellFormed :
        IsWellFormed (record i { cpu = write_register i.cpu d.rd (add32 i.cpu.pc 4) })
    linked-IsWellFormed = record {
      cpu = write_register-IsCpu i.cpu d.rd _ h.cpu (omega arith);
      mem = h.mem;
      heap = h.heap;
    }

    jal-IsWellFormed : IsWellFormed (execute_jal i d)
    unfolding execute_jal
    jal-IsWellFormed = transfer-IsWellFormed _ d true _ (omega arith) linked-IsWellFormed

    jalr-IsWellFormed : IsWellFormed (execute_jalr i d)
    unfolding execute_jalr
    jalr-IsWellFormed =
        if-cases IsWellFormed (not (d.funct3 == 0)) _ _ (λ _. illegal-IsWellFormed)
          λ _.
            transfer-IsWellFormed _ d true _
              (omega (arith, bit_and-le (add32 (i.cpu.x d.rs1) d.imm) 0xFFFFFFFE))
              linked-IsWellFormed

    misc_mem-IsWellFormed : IsWellFormed (execute_misc_mem i d)
    unfolding execute_misc_mem
    misc_mem-IsWellFormed =
        if-cases IsWellFormed (ltb 1 d.funct3) _ _ (λ _. illegal-IsWellFormed)
          (λ _. advance-IsWellFormed i h)

  module _ (i : Interpreter p) (d : DecodedInstruction) (imm : d.imm < 2 ^ 32)
      (h : IsWellFormed i) where
    load-IsWellFormed : IsWellFormed (execute_load i d)
    unfolding execute_load
    load-IsWellFormed =
        let address = add32 (i.cpu.x d.rs1) d.imm in
        elim (Option-cases (load_value i.mem d.funct3 address)) [
          | inl e ↦ rw (e, execute_load) (illegal-IsWellFormed i d imm h)
          | inr (r, e) ↦
              rw (e, execute_load)
                (finish_load-IsWellFormed _ d imm (deliver-IsWellFormed i r.1 h) address r.0
                  (load_value-lt i.mem d.funct3 address h.mem (omega arith) r e))
        ]

    store-IsWellFormed : IsWellFormed (execute_store i d)
    unfolding execute_store
    store-IsWellFormed =
        let address = add32 (i.cpu.x d.rs1) d.imm in
        let written =
          store_value-IsMemory i.mem d.funct3 address h.mem (omega arith) (i.cpu.x d.rs2) in
        elim (Option-cases (store_value i.mem d.funct3 address (i.cpu.x d.rs2))) [
          | inl e ↦
              rw (e, execute_store)
                (finish_store-IsWellFormed _ d imm (illegal-IsWellFormed i d imm h) address)
          | inr (r, e) ↦
              rw (e, execute_store)
                (finish_store-IsWellFormed _ d imm
                  (deliver-IsWellFormed (record i { mem = r.0 }) r.1
                    (record { cpu = h.cpu; mem = rw e at written; heap = h.heap }))
                  address)
        ]

    pub execute-IsWellFormed : IsWellFormed (execute i d)
    unfolding execute
    execute-IsWellFormed =
        if-cases IsWellFormed (d.opcode == Opcodes.lui) _ _
          (λ _. retire-IsWellFormed i d.rd _ imm h)
          λ _.
            if-cases IsWellFormed (d.opcode == Opcodes.auipc) _ _
              (λ _. retire-IsWellFormed i d.rd _ (omega arith) h)
              λ _.
                if-cases IsWellFormed (d.opcode == Opcodes.jal) _ _
                  (λ _. jal-IsWellFormed i d imm h)
                  λ _.
                    if-cases IsWellFormed (d.opcode == Opcodes.jalr) _ _
                      (λ _. jalr-IsWellFormed i d imm h)
                      λ _.
                        if-cases IsWellFormed (d.opcode == Opcodes.branch) _ _
                          (λ _. branch-IsWellFormed i d imm h)
                          λ _.
                            if-cases IsWellFormed (d.opcode == Opcodes.load) _ _
                              (λ _. load-IsWellFormed)
                              λ _.
                                if-cases IsWellFormed (d.opcode == Opcodes.store) _ _
                                  (λ _. store-IsWellFormed)
                                  λ _.
                                    if-cases IsWellFormed (d.opcode == Opcodes.op_imm) _ _
                                      (λ _. op_imm-IsWellFormed i d imm h)
                                      λ _.
                                        if-cases IsWellFormed (d.opcode == Opcodes.op) _ _
                                          (λ _. op-IsWellFormed i d imm h)
                                          λ _.
                                            if-cases IsWellFormed (d.opcode == Opcodes.system) _ _
                                              (λ _. system-IsWellFormed i d imm h)
                                              λ _.
                                                if-cases IsWellFormed (d.opcode == Opcodes.misc_mem)
                                                  _ _ (λ _. misc_mem-IsWellFormed i d imm h)
                                                  (λ _. illegal-IsWellFormed i d imm h)
