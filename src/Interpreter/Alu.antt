-- ===== src/Interpreter/Alu.antt =====
-- The arithmetic of src/interpreter/interpreter.cpp: the switches of execute_branch,
-- execute_op_imm and execute_op over the operand values. `none` is the path on which the code
-- raises ILLEGAL_INSTRUCTION.
pub mod Signed
pub mod Legality
pub mod Operations
use Prim.Native.Nat.{bit_and, bit_or, bit_xor}
use risc_e.Base.{
  ℕ, ◌+◌, ◌-◌, ◌^◌, Bool, true, false, not, Option, none, some, ltb, ◌==◌, ◌||◌, if◌then◌else◌,
}
use risc_e.Base.Word.{u32, add32, sub32, sar32, slt32, ◌<<<◌, ◌>>>◌}
use risc_e.Decoder.{DecodedInstruction}
use risc_e.Decoder.Opcodes

unfoldable pub is_valid_funct7 : ℕ → ℕ → Bool
is_valid_funct7 funct7 funct3 =
    if funct3 == Opcodes.f3_add_sub
    then funct7 == 0x00 || funct7 == Opcodes.f7_sub_sra
    else if funct3 == Opcodes.f3_sll
        || funct3 == Opcodes.f3_slt
        || funct3 == Opcodes.f3_sltu
        || funct3 == Opcodes.f3_xor
        || funct3 == Opcodes.f3_or
        || funct3 == Opcodes.f3_and
    then funct7 == 0x00
    else if funct3 == Opcodes.f3_srl_sra
    then funct7 == 0x00 || funct7 == Opcodes.f7_sub_sra
    else false

unfoldable pub is_valid_shift : ℕ → ℕ → Bool
is_valid_shift funct7 funct3 =
    if funct3 == Opcodes.f3_slli
    then funct7 == Opcodes.f7_slli
    else if funct3 == Opcodes.f3_srli
    then funct7 == 0x00 || funct7 == Opcodes.f7_srai
    else false

-- The value of a C++ test that is stored as 1 or 0.
abbrev pub flag : Bool → ℕ
flag test = if test then 1 else 0

unfoldable pub branch_taken : ℕ → ℕ → ℕ → Option Bool
branch_taken funct3 rs1 rs2 =
    if funct3 == Opcodes.f3_beq
    then some (rs1 == rs2)
    else if funct3 == Opcodes.f3_bne
    then some (not (rs1 == rs2))
    else if funct3 == Opcodes.f3_blt
    then some (slt32 rs1 rs2)
    else if funct3 == Opcodes.f3_bge
    then some (not (slt32 rs1 rs2))
    else if funct3 == Opcodes.f3_bltu
    then some (ltb rs1 rs2)
    else if funct3 == Opcodes.f3_bgeu
    then some (not (ltb rs1 rs2))
    else none

-- The shift of execute_op_imm, whose amount is in the rs2 field.
unfoldable pub shift_imm : DecodedInstruction → ℕ → ℕ
shift_imm d rs1 =
    let shamt = bit_and d.rs2 0x1F in
    if d.funct3 == Opcodes.f3_slli
    then u32 (rs1 <<< shamt)
    else if d.funct7 == Opcodes.f7_srai
    then sar32 rs1 shamt
    else rs1 >>> shamt

unfoldable pub alu_imm : DecodedInstruction → ℕ → Option ℕ
unfolding is_valid_shift shift_imm
alu_imm d rs1 =
    if d.funct3 == Opcodes.f3_addi
    then some (add32 rs1 d.imm)
    else if d.funct3 == Opcodes.f3_slti
    then some (flag (slt32 rs1 d.imm))
    else if d.funct3 == Opcodes.f3_sltiu
    then some (flag (ltb rs1 d.imm))
    else if d.funct3 == Opcodes.f3_xori
    then some (bit_xor rs1 d.imm)
    else if d.funct3 == Opcodes.f3_ori
    then some (bit_or rs1 d.imm)
    else if d.funct3 == Opcodes.f3_andi
    then some (bit_and rs1 d.imm)
    else if d.funct3 == Opcodes.f3_slli || d.funct3 == Opcodes.f3_srli
    then (if not (is_valid_shift d.funct7 d.funct3) then none else some (shift_imm d rs1))
    else none

-- The switch of execute_op, behind its check of funct7.
unfoldable pub alu_result : DecodedInstruction → ℕ → ℕ → Option ℕ
alu_result d rs1 rs2 =
    if d.funct3 == Opcodes.f3_add_sub
    then some (if d.funct7 == Opcodes.f7_sub_sra then sub32 rs1 rs2 else add32 rs1 rs2)
    else if d.funct3 == Opcodes.f3_sll
    then some (u32 (rs1 <<< bit_and rs2 0x1F))
    else if d.funct3 == Opcodes.f3_slt
    then some (flag (slt32 rs1 rs2))
    else if d.funct3 == Opcodes.f3_sltu
    then some (flag (ltb rs1 rs2))
    else if d.funct3 == Opcodes.f3_xor
    then some (bit_xor rs1 rs2)
    else if d.funct3 == Opcodes.f3_srl_sra
    then some (
        if d.funct7 == Opcodes.f7_sub_sra
        then sar32 rs1 (bit_and rs2 0x1F)
        else rs1 >>> bit_and rs2 0x1F)
    else if d.funct3 == Opcodes.f3_or
    then some (bit_or rs1 rs2)
    else if d.funct3 == Opcodes.f3_and
    then some (bit_and rs1 rs2)
    else none

unfoldable pub alu_op : DecodedInstruction → ℕ → ℕ → Option ℕ
unfolding is_valid_funct7 alu_result
alu_op d rs1 rs2 = if not (is_valid_funct7 d.funct7 d.funct3) then none else alu_result d rs1 rs2
