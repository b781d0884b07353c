-- ===== src/Disasm/Instruction/Validity.antt =====
-- Which instructions disassemble_instruction of src/disasm/disasm.cpp lists as illegal, against the
-- validity rules of src/interpreter/interpreter.cpp.
use risc_e.Base.{
  ℕ, ◌<◌, ◌≡◌, ◌≢◌, ◌↔◌, ◌⊎◌, refl, inl, inr, arith, Bool, true, false, ◌++◌, [], take, none,
}
use risc_e.Base.Text.{Text, text, text_eq}
use risc_e.Decoder.{DecodedInstruction}
use risc_e.Decoder.Opcodes
use risc_e.Memory.{PhysicalMemory}
use risc_e.Predictor.{BranchPredictor}
use risc_e.Interpreter.Alu.{
  branch_taken, alu_imm, alu_op, alu_result, is_valid_funct7, is_valid_shift,
}
use risc_e.Base.Word.{add32}
use risc_e.Interpreter.Machine.{Interpreter, raise_trap, handle_trap, enter_trap, halt_on_trap}
use risc_e.Interpreter.Execute
use risc_e.Interpreter.Execute.{
  load_value, store_value, finish_store, execute, execute_op, execute_op_imm, execute_load,
  execute_store, execute_branch, execute_jalr, execute_misc_mem, execute_system,
}
use risc_e.Disasm.Instruction.{
  disassemble_op, disassemble_op_imm, disassemble_load, disassemble_store, disassemble_branch,
  disassemble_misc_mem, disassemble_system, disassemble_instruction, format_r, format_i,
  format_shift, format_offset, format_branch, format_u, illegal, reg, hex8,
}

-- A reader sees the word "illegal" in place of a mnemonic.
abbrev pub says_illegal : Text → Bool
says_illegal line = text_eq (take 7 line) (text "illegal")

disassemble_op-illegal :
    (d : DecodedInstruction) (a b : ℕ)
    → says_illegal (disassemble_op d) ≡ true
    → alu_op d a b ≡ none
unfolding disassemble_op format_r illegal text_eq alu_op alu_result is_valid_funct7
disassemble_op-illegal d a b h = ground arith

pub disassemble_op_imm_iff :
    (d : DecodedInstruction) (a : ℕ)
    → (says_illegal (disassemble_op_imm d) ≡ true) ↔ (alu_imm d a ≡ none)
unfolding disassemble_op_imm format_i format_shift illegal text_eq alu_imm is_valid_shift
disassemble_op_imm_iff d a = ground arith

pub disassemble_load_iff :
    (d : DecodedInstruction) (m : PhysicalMemory) (a : ℕ)
    → (says_illegal (disassemble_load d) ≡ true) ↔ (load_value m d.funct3 a ≡ none)
unfolding disassemble_load format_offset illegal text_eq load_value
disassemble_load_iff d m a = ground arith

pub disassemble_store_iff :
    (d : DecodedInstruction) (m : PhysicalMemory) (a v : ℕ)
    → (says_illegal (disassemble_store d) ≡ true) ↔ (store_value m d.funct3 a v ≡ none)
unfolding disassemble_store format_offset illegal text_eq store_value
disassemble_store_iff d m a v = ground arith

pub disassemble_branch_iff :
    (d : DecodedInstruction) (a b : ℕ)
    → (says_illegal (disassemble_branch d) ≡ true) ↔ (branch_taken d.funct3 a b ≡ none)
unfolding disassemble_branch format_branch illegal text_eq branch_taken
disassemble_branch_iff d a b = ground arith

-- The instructions that are listed without a test.
says_illegal-format_u :
    (d : DecodedInstruction)
    → (says_illegal (format_u (text "lui") d) ≡ false)
      × (says_illegal (format_u (text "auipc") d) ≡ false)
unfolding format_u text_eq
says_illegal-format_u d = (refl, refl)

says_illegal-jumps :
    (d : DecodedInstruction) (t : Text)
    → (says_illegal (text "jal " ++ t) ≡ false)
      × (says_illegal (format_offset (text "jalr") d false) ≡ false)
unfolding format_offset text_eq
says_illegal-jumps d t = (refl, refl)

module _ {p : BranchPredictor} (i : Interpreter p) (d : DecodedInstruction) where
  illegal_halts : (Execute.illegal i d).cpu.running ≡ false
  unfolding Execute.illegal raise_trap handle_trap enter_trap halt_on_trap
  illegal_halts = refl

  finish_store-illegal : (a : ℕ) → finish_store (Execute.illegal i d) d a ≡ Execute.illegal i d
  unfolding finish_store
  finish_store-illegal a = rw (illegal_halts)

  execute_op-rejected :
      says_illegal (disassemble_op d) ≡ true → execute_op i d ≡ Execute.illegal i d
  unfolding execute_op
  execute_op-rejected h =
      rw (disassemble_op-illegal d (i.cpu.x d.rs1) (i.cpu.x d.rs2) h, execute_op)

  execute_op_imm-rejected :
      says_illegal (disassemble_op_imm d) ≡ true → execute_op_imm i d ≡ Execute.illegal i d
  unfolding execute_op_imm
  execute_op_imm-rejected h = rw ((disassemble_op_imm_iff d (i.cpu.x d.rs1)).0 h, execute_op_imm)

  execute_load-rejected :
      says_illegal (disassemble_load d) ≡ true → execute_load i d ≡ Execute.illegal i d
  unfolding execute_load
  execute_load-rejected h =
      rw ((disassemble_load_iff d i.mem (add32 (i.cpu.x d.rs1) d.imm)).0 h, execute_load)

  execute_store-rejected :
      says_illegal (disassemble_store d) ≡ true → execute_store i d ≡ Execute.illegal i d
  unfolding execute_store
  execute_store-rejected h =
      rw
        (
          (disassemble_store_iff d i.mem (add32 (i.cpu.x d.rs1) d.imm) (i.cpu.x d.rs2)).0 h,
          execute_store,
        )
        (finish_store-illegal (add32 (i.cpu.x d.rs1) d.imm))

  execute_branch-rejected :
      says_illegal (disassemble_branch d) ≡ true → execute_branch i d ≡ Execute.illegal i d
  unfolding execute_branch
  execute_branch-rejected h =
      rw ((disassemble_branch_iff d (i.cpu.x d.rs1) (i.cpu.x d.rs2)).0 h, execute_branch)

  execute_misc_mem-rejected :
      says_illegal (disassemble_misc_mem d) ≡ true → execute_misc_mem i d ≡ Execute.illegal i d
  unfolding execute_misc_mem disassemble_misc_mem text_eq
  execute_misc_mem-rejected h = ground arith

  execute_system-rejected :
      says_illegal (disassemble_system d) ≡ true → execute_system i d ≡ Execute.illegal i d
  unfolding execute_system disassemble_system text_eq
  execute_system-rejected h = ground arith

  -- The two switches take the same case.
  module _ (h : says_illegal (disassemble_instruction d) ≡ true) where
    op-rejected : d.opcode ≡ Opcodes.op → execute i d ≡ Execute.illegal i d
    unfolding execute disassemble_instruction
    op-rejected e = ground (arith, execute_op-rejected)

    op_imm-rejected : d.opcode ≡ Opcodes.op_imm → execute i d ≡ Execute.illegal i d
    unfolding execute disassemble_instruction
    op_imm-rejected e = ground (arith, execute_op_imm-rejected)

    load-rejected : d.opcode ≡ Opcodes.load → execute i d ≡ Execute.illegal i d
    unfolding execute disassemble_instruction
    load-rejected e = ground (arith, execute_load-rejected)

    store-rejected : d.opcode ≡ Opcodes.store → execute i d ≡ Execute.illegal i d
    unfolding execute disassemble_instruction
    store-rejected e = ground (arith, execute_store-rejected)

    branch-rejected : d.opcode ≡ Opcodes.branch → execute i d ≡ Execute.illegal i d
    unfolding execute disassemble_instruction
    branch-rejected e = ground (arith, execute_branch-rejected)

    misc_mem-rejected : d.opcode ≡ Opcodes.misc_mem → execute i d ≡ Execute.illegal i d
    unfolding execute disassemble_instruction
    misc_mem-rejected e = ground (arith, execute_misc_mem-rejected)

    system-rejected : d.opcode ≡ Opcodes.system → execute i d ≡ Execute.illegal i d
    unfolding execute disassemble_instruction
    system-rejected e = ground (arith, execute_system-rejected)

    jumps-rejected :
        (d.opcode ≡ Opcodes.lui)
          ⊎ (d.opcode ≡ Opcodes.auipc)
          ⊎ (d.opcode ≡ Opcodes.jal)
          ⊎ (d.opcode ≡ Opcodes.jalr)
        → execute i d ≡ Execute.illegal i d
    unfolding execute execute_jalr disassemble_instruction
    jumps-rejected (inl e) = ground (arith, says_illegal-format_u d)
    jumps-rejected (inr (inl e)) = ground (arith, says_illegal-format_u d)
    jumps-rejected (inr (inr (inl e))) =
        ground (arith, says_illegal-jumps d (reg d.rd ++ (text ", " ++ hex8 (add32 d.addr d.imm))))
    jumps-rejected (inr (inr (inr e))) = ground (arith, says_illegal-jumps d [])

    others-rejected :
        d.opcode ≢ Opcodes.op
        → d.opcode ≢ Opcodes.op_imm
        → d.opcode ≢ Opcodes.load
        → d.opcode ≢ Opcodes.store
        → d.opcode ≢ Opcodes.branch
        → d.opcode ≢ Opcodes.misc_mem
        → d.opcode ≢ Opcodes.system
        → execute i d ≡ Execute.illegal i d
    unfolding execute
    others-rejected o1 o2 o3 o4 o5 o6 o7 = ground (arith, jumps-rejected)

    -- An instruction that the disassembler lists as illegal raises the illegal-instruction trap when
    -- it is executed, and does nothing else.
    pub execute-listed_illegal : execute i d ≡ Execute.illegal i d
    execute-listed_illegal = ground (
      arith, op-rejected, op_imm-rejected, load-rejected, store-rejected, branch-rejected,
      misc_mem-rejected, system-rejected, others-rejected,
    )

  -- The register operations are listed by funct3 alone: one with a funct3 of three bits whose funct7 is
  -- neither 0 nor 32 has a mnemonic in the listing and raises the illegal-instruction trap when it is
  -- executed.
  pub execute-listed_op :
      d.opcode ≡ Opcodes.op
      → d.funct3 < 8
      → d.funct7 ≢ 0
      → d.funct7 ≢ 32
      → (says_illegal (disassemble_instruction d) ≡ false) × (execute i d ≡ Execute.illegal i d)
  unfolding execute execute_op alu_op is_valid_funct7 disassemble_instruction disassemble_op
      format_r text_eq
  execute-listed_op opcode small not_0 not_32 = ground arith
