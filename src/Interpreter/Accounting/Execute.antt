-- ===== src/Interpreter/Accounting/Execute.antt =====
-- Each instruction that execute of src/interpreter/interpreter.cpp runs is at most one control
-- transfer, load or store.
use risc_e.Base.{
  ℕ, suc, ◌+◌, ◌≤◌, ◌≡◌, arith, Bool, true, not, ltb, ◌==◌, ◌&&◌, if-cases, Option-cases, inl, inr,
}
use risc_e.Base.Word.{add32}
use risc_e.Cpu.Trap.{TrapCause}
use risc_e.Decoder.{DecodedInstruction}
use risc_e.Decoder.Opcodes
use risc_e.Predictor.{BranchPredictor}
use risc_e.Predictor.Context.{from_decoded}
use risc_e.DCache.Trace.{DCacheKind}
use risc_e.Interpreter.Alu.{branch_taken, alu_imm, alu_op}
use risc_e.Interpreter.Machine.{Interpreter, write_register, raise_trap, deliver}
use risc_e.Interpreter.Execute.{
  load_value, store_value, load_size, store_size, count_branch, advance, illegal, retire, transfer,
  execute_branch, execute_op_imm, execute_op, finish_load, execute_load, finish_store,
  execute_store, halt_on_ebreak, execute_system, execute_jal, execute_jalr, execute_misc_mem,
  execute,
}
use risc_e.Interpreter.Counters.{counters-deliver, counters-raise_trap}
use risc_e.Interpreter.Accounting.{
  Counts, HasCounts, same, record-transfers, record_access-counts, count_branch-counts,
}

module _ {p : BranchPredictor} where
  module _ (i : Interpreter p) (d : DecodedInstruction) (h : Counts 1 i) where
    spent : Counts 0 i
    spent = omega (arith, h)

    illegal-Counts : Counts 0 (illegal i d)
    unfolding illegal
    illegal-Counts =
        same 0 i (raise_trap i TrapCause.illegal_instruction d.raw)
          (counters-raise_trap i TrapCause.illegal_instruction d.raw) spent

    finish_load-Counts : (address result : ℕ) → Counts 0 (finish_load i d address result)
    unfolding finish_load retire advance
    finish_load-Counts address result =
        if-cases (Counts 0) (not i.cpu.running) _ _ (λ _. spent)
          (λ _. omega (
            arith,
            h,
            record_access-counts i.access_trace DCacheKind.load address (load_size d.funct3),
          ))

    finish_store-Counts : (address : ℕ) → Counts 0 (finish_store i d address)
    unfolding finish_store advance
    finish_store-Counts address =
        if-cases (Counts 0) (not i.cpu.running) _ _ (λ _. spent)
          (λ _. omega (
            arith,
            h,
            record_access-counts i.access_trace DCacheKind.store address (store_size d.funct3),
          ))

  -- A transfer of an interpreter whose branch counters are those of `i` or one branch ahead.
  transfer-Counts :
      (i : Interpreter p) (d : DecodedInstruction) (taken : Bool) (target : ℕ)
      → (i.branch_stats.taken + i.branch_stats.not_taken ≡ i.branch_stats.total)
      → i.branch_stats.total ≤ suc i.branch_stats.control_total
      → i.branch_stats.control_total + i.access_trace.loads + i.access_trace.stores + 1
        ≤ i.profile_stats.instructions
      → i.profile_stats.instructions ≡ i.inst_count
      → Counts 0 (transfer i d taken target)
  unfolding transfer
  transfer-Counts i d taken target a b c e = omega (
    arith,
    record-transfers p i.branch_stats i.predictor (from_decoded d) taken target i.inst_count,
  )

  module _ (i : Interpreter p) (d : DecodedInstruction) (h : Counts 1 i) where
    branch-Counts : Counts 0 (execute_branch i d)
    unfolding execute_branch
    branch-Counts = elim (Option-cases (branch_taken d.funct3 (i.cpu.x d.rs1) (i.cpu.x d.rs2))) [
      | inl e ↦ rw (e, execute_branch) (illegal-Counts i d h)
      | inr (taken, e) ↦
          let counted = count_branch-counts d.funct3 taken i.branch_stats in
          rw (e, execute_branch)
            (transfer-Counts
              (record i { branch_stats = count_branch d.funct3 taken i.branch_stats }) d taken _
              (omega (arith, h, counted)) (omega (arith, h, counted)) (omega (arith, h, counted))
              (omega (arith, h)))
    ]

    op_imm-Counts : Counts 0 (execute_op_imm i d)
    unfolding execute_op_imm retire advance
    op_imm-Counts = elim (Option-cases (alu_imm d (i.cpu.x d.rs1))) [
      | inl e ↦ rw (e, execute_op_imm) (illegal-Counts i d h)
      | inr (v, e) ↦ rw (e, execute_op_imm) (spent i d h)
    ]

    op-Counts : Counts 0 (execute_op i d)
    unfolding execute_op retire advance
    op-Counts = elim (Option-cases (alu_op d (i.cpu.x d.rs1) (i.cpu.x d.rs2))) [
      | inl e ↦ rw (e, execute_op) (illegal-Counts i d h)
      | inr (v, e) ↦ rw (e, execute_op) (spent i d h)
    ]

    load-Counts : Counts 0 (execute_load i d)
    unfolding execute_load
    load-Counts =
        let address = add32 (i.cpu.x d.rs1) d.imm in
        elim (Option-cases (load_value i.mem d.funct3 address)) [
          | inl e ↦ rw (e, execute_load) (illegal-Counts i d h)
          | inr (r, e) ↦
              rw (e, execute_load)
                (finish_load-Counts (deliver i r.1) d
                  (same 1 i (deliver i r.1) (counters-deliver i r.1) h) address r.0)
        ]

    store-Counts : Counts 0 (execute_store i d)
    unfolding execute_store
    store-Counts =
        let address = add32 (i.cpu.x d.rs1) d.imm in
        elim (Option-cases (store_value i.mem d.funct3 address (i.cpu.x d.rs2))) [
          | inl e ↦
              rw (e, execute_store)
                (finish_store-Counts (illegal i d) d
                  (unfold illegal in
                    same 1 i (raise_trap i TrapCause.illegal_instruction d.raw)
                      (counters-raise_trap i TrapCause.illegal_instruction d.raw) h)
                  address)
          | inr (r, e) ↦
              let j = record i { mem = r.0 } in
              rw (e, execute_store)
                (finish_store-Counts (deliver j r.1) d
                  (same 1 j (deliver j r.1) (counters-deliver j r.1) h) address)
        ]

    system-Counts : Counts 0 (execute_system i d)
    unfolding execute_system halt_on_ebreak advance
    system-Counts =
        if-cases (Counts 0) (d.imm == 0 && (d.funct3 == 0 && d.rd == 0 && d.rs1 == 0)) _ _
          (λ _.
            same 0 i (raise_trap i TrapCause.environment_call_from_mmode 0)
              (counters-raise_trap i TrapCause.environment_call_from_mmode 0) (spent i d h))
          λ _.
            if-cases (Counts 0) (d.imm == 1 && (d.funct3 == 0 && d.rd == 0 && d.rs1 == 0)) _ _
              (λ _. spent i d h) (λ _. illegal-Counts i d h)

    jump-Counts :
        (target : ℕ)
        → Counts 0 (
            transfer
              (record i { cpu = write_register i.cpu d.rd (add32 i.cpu.pc 4) })
              d
              true
              target)
    jump-Counts target =
        transfer-Counts (record i { cpu = write_register i.cpu d.rd (add32 i.cpu.pc 4) }) d true
          target (omega (arith, h)) (omega (arith, h)) (omega (arith, h)) (omega (arith, h))

    retire-Counts : (rd result : ℕ) → HasCounts (retire i rd result)
    unfolding retire advance
    retire-Counts rd result = record { counted = spent i d h }

    jal-Counts : HasCounts (execute_jal i d)
    unfolding execute_jal
    jal-Counts = record { counted = jump-Counts _ }

    jalr-Counts : HasCounts (execute_jalr i d)
    unfolding execute_jalr
    jalr-Counts =
        if-cases HasCounts (not (d.funct3 == 0)) _ _
          (λ _. record { counted = illegal-Counts i d h }) (λ _. record { counted = jump-Counts _ })

    misc_mem-Counts : HasCounts (execute_misc_mem i d)
    unfolding execute_misc_mem advance
    misc_mem-Counts =
        if-cases HasCounts (ltb 1 d.funct3) _ _ (λ _. record { counted = illegal-Counts i d h })
          (λ _. record { counted = spent i d h })

    pub execute-Counts : HasCounts (execute i d)
    unfolding execute
    execute-Counts =
        if-cases HasCounts (d.opcode == Opcodes.lui) _ _ (λ _. retire-Counts d.rd d.imm)
          λ _.
            if-cases HasCounts (d.opcode == Opcodes.auipc) _ _ (λ _. retire-Counts d.rd _)
              λ _.
                if-cases HasCounts (d.opcode == Opcodes.jal) _ _ (λ _. jal-Counts)
                  λ _.
                    if-cases HasCounts (d.opcode == Opcodes.jalr) _ _ (λ _. jalr-Counts)
                      λ _.
                        if-cases HasCounts (d.opcode == Opcodes.branch) _ _
                          (λ _. record { counted = branch-Counts })
                          λ _.
                            if-cases HasCounts (d.opcode == Opcodes.load) _ _
                              (λ _. record { counted = load-Counts })
                              λ _.
                                if-cases HasCounts (d.opcode == Opcodes.store) _ _
                                  (λ _. record { counted = store-Counts })
                                  λ _.
                                    if-cases HasCounts (d.opcode == Opcodes.op_imm) _ _
                                      (λ _. record { counted = op_imm-Counts })
                                      λ _.
                                        if-cases HasCounts (d.opcode == Opcodes.op) _ _
                                          (λ _. record { counted = op-Counts })
                                          λ _.
                                            if-cases HasCounts (d.opcode == Opcodes.system) _ _
                                              (λ _. record { counted = system-Counts })
                                              λ _.
                                                if-cases HasCounts (d.opcode == Opcodes.misc_mem) _
                                                  _ (λ _. misc_mem-Counts)
                                                  (λ _. record { counted = illegal-Counts i d h })
