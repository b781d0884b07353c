-- ===== src/Disasm/Instruction/Accepted.antt =====
-- The other direction: what disassemble_instruction of src/disasm/disasm.cpp lists with a mnemonic is
-- accepted by the tests of src/interpreter/interpreter.cpp, register operations apart.
use risc_e.Base.{ℕ, ◌<◌, ◌≡◌, ◌≢◌, ◌⊎◌, none}
use risc_e.Decoder.{DecodedInstruction}
use risc_e.Decoder.Opcodes
use risc_e.Memory.{PhysicalMemory}
use risc_e.Interpreter.Alu.{branch_taken, alu_imm}
use risc_e.Interpreter.Execute.{load_value, store_value}

-- The eleven opcodes of RV32I.
abbrev pub IsBaseOpcode : ℕ → Type 0
IsBaseOpcode opcode =
    (opcode ≡ Opcodes.op)
    ⊎ (opcode ≡ Opcodes.op_imm)
    ⊎ (opcode ≡ Opcodes.load)
    ⊎ (opcode ≡ Opcodes.store)
    ⊎ (opcode ≡ Opcodes.branch)
    ⊎ (opcode ≡ Opcodes.lui)
    ⊎ (opcode ≡ Opcodes.auipc)
    ⊎ (opcode ≡ Opcodes.jal)
    ⊎ (opcode ≡ Opcodes.jalr)
    ⊎ (opcode ≡ Opcodes.misc_mem)
    ⊎ (opcode ≡ Opcodes.system)

-- What the interpreter's tests say of an instruction, whatever its operands and the memory: the
-- operation that its opcode selects has a result.
pub record IsAccepted (d : DecodedInstruction) : Type 0 where
  pub known : IsBaseOpcode d.opcode
  pub op_imm : d.opcode ≡ Opcodes.op_imm → (a : ℕ) → alu_imm d a ≢ none
  pub loads :
      d.opcode ≡ Opcodes.load → (m : PhysicalMemory) (a : ℕ) → load_value m d.funct3 a ≢ none
  pub stores :
      d.opcode ≡ Opcodes.store → (m : PhysicalMemory) (a v : ℕ) → store_value m d.funct3 a v ≢ none
  pub branches : d.opcode ≡ Opcodes.branch → (a b : ℕ) → branch_taken d.funct3 a b ≢ none
  pub jumps : d.opcode ≡ Opcodes.jalr → d.funct3 ≡ 0
  pub fences : d.opcode ≡ Opcodes.misc_mem → d.funct3 < 2
  pub calls :
      d.opcode ≡ Opcodes.system
      → (d.funct3 ≡ 0) × (d.rd ≡ 0) × (d.rs1 ≡ 0) × ((d.imm ≡ 0) ⊎ (d.imm ≡ 1))
