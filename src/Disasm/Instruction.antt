-- ===== src/Disasm/Instruction.antt =====
-- disassemble_instruction of src/disasm/disasm.cpp, one function for each case of its switch.
pub mod Validity
pub mod Accepted
use Prim.Native.Nat.{bit_and}
use Prim.Native.String.{String}
use risc_e.Base.{
  ℕ, ◌-◌, ◌^◌, Bool, true, false, List, [], ◌∷◌, ◌++◌, get_or, ltb, ◌==◌, ◌&&◌, if◌then◌else◌,
}
use risc_e.Base.Word.{add32, ◌>>>◌}
use risc_e.Base.Text.{signed_string, Text, text, to_string}
use risc_e.Base.Hex.{to_hex, pad}
use risc_e.Decoder.{DecodedInstruction}
use risc_e.Decoder.Opcodes

-- kRegNames.
abbrev pub reg_names : List Text
reg_names =
    text "zero"
    ∷ text "ra"
    ∷ text "sp"
    ∷ text "gp"
    ∷ text "tp"
    ∷ text "t0"
    ∷ text "t1"
    ∷ text "t2"
    ∷ text "s0"
    ∷ text "s1"
    ∷ text "a0"
    ∷ text "a1"
    ∷ text "a2"
    ∷ text "a3"
    ∷ text "a4"
    ∷ text "a5"
    ∷ text "a6"
    ∷ text "a7"
    ∷ text "s2"
    ∷ text "s3"
    ∷ text "s4"
    ∷ text "s5"
    ∷ text "s6"
    ∷ text "s7"
    ∷ text "s8"
    ∷ text "s9"
    ∷ text "s10"
    ∷ text "s11"
    ∷ text "t3"
    ∷ text "t4"
    ∷ text "t5"
    ∷ text "t6"
    ∷ []

unfoldable pub reg : ℕ → Text
reg idx = if ltb idx 32 then get_or reg_names idx [] else text "x" ++ to_string idx

unfoldable pub illegal : DecodedInstruction → Text
illegal d = text "illegal (0x" ++ (pad 8 (to_hex d.raw) ++ text ")")

unfoldable pub hex8 : ℕ → Text
hex8 value = text "0x" ++ pad 8 (to_hex value)

unfoldable pub format_r : Text → DecodedInstruction → Text
format_r mnemonic d =
    mnemonic ++ (text " " ++ (reg d.rd ++ (text ", " ++ (reg d.rs1 ++ (text ", " ++ reg d.rs2)))))

unfoldable pub format_i : Text → DecodedInstruction → Text
format_i mnemonic d =
    mnemonic
    ++ (text " " ++ (reg d.rd ++ (text ", " ++ (reg d.rs1 ++ (text ", " ++ signed_string d.imm)))))

unfoldable pub format_shift : Text → DecodedInstruction → Text
format_shift mnemonic d =
    mnemonic
    ++ (text " "
        ++ (reg d.rd
            ++ (text ", " ++ (reg d.rs1 ++ (text ", " ++ to_string (bit_and d.rs2 0x1F))))))

unfoldable pub format_offset : Text → DecodedInstruction → Bool → Text
format_offset mnemonic d is_store =
    mnemonic
    ++ (text " "
        ++ (reg (if is_store then d.rs2 else d.rd)
            ++ (text ", " ++ (signed_string d.imm ++ (text "(" ++ (reg d.rs1 ++ text ")"))))))

unfoldable pub format_branch : Text → DecodedInstruction → Text
format_branch mnemonic d =
    mnemonic
    ++ (text " "
        ++ (reg d.rs1 ++ (text ", " ++ (reg d.rs2 ++ (text ", " ++ hex8 (add32 d.addr d.imm))))))

unfoldable pub format_u : Text → DecodedInstruction → Text
format_u mnemonic d = mnemonic ++ (text " " ++ (reg d.rd ++ (text ", 0x" ++ to_hex (d.imm >>> 12))))

unfoldable pub disassemble_op : DecodedInstruction → Text
disassemble_op d =
    if d.funct3 == Opcodes.f3_add_sub
    then format_r (if d.funct7 == Opcodes.f7_sub_sra then text "sub" else text "add") d
    else if d.funct3 == Opcodes.f3_sll
    then format_r (text "sll") d
    else if d.funct3 == Opcodes.f3_slt
    then format_r (text "slt") d
    else if d.funct3 == Opcodes.f3_sltu
    then format_r (text "sltu") d
    else if d.funct3 == Opcodes.f3_xor
    then format_r (text "xor") d
    else if d.funct3 == Opcodes.f3_srl_sra
    then format_r (if d.funct7 == Opcodes.f7_sub_sra then text "sra" else text "srl") d
    else if d.funct3 == Opcodes.f3_or
    then format_r (text "or") d
    else if d.funct3 == Opcodes.f3_and
    then format_r (text "and") d
    else illegal d

unfoldable pub disassemble_op_imm : DecodedInstruction → Text
disassemble_op_imm d =
    if d.funct3 == Opcodes.f3_addi
    then format_i (text "addi") d
    else if d.funct3 == Opcodes.f3_slli
    then (if d.funct7 == Opcodes.f7_slli then format_shift (text "slli") d else illegal d)
    else if d.funct3 == Opcodes.f3_slti
    then format_i (text "slti") d
    else if d.funct3 == Opcodes.f3_sltiu
    then format_i (text "sltiu") d
    else if d.funct3 == Opcodes.f3_xori
    then format_i (text "xori") d
    else if d.funct3 == Opcodes.f3_srli
    then (if d.funct7 == Opcodes.f7_srai
        then format_shift (text "srai") d
        else if d.funct7 == Opcodes.f7_slli
        then format_shift (text "srli") d
        else illegal d)
    else if d.funct3 == Opcodes.f3_ori
    then format_i (text "ori") d
    else if d.funct3 == Opcodes.f3_andi
    then format_i (text "andi") d
    else illegal d

unfoldable pub disassemble_load : DecodedInstruction → Text
disassemble_load d =
    if d.funct3 == Opcodes.f3_lb
    then format_offset (text "lb") d false
    else if d.funct3 == Opcodes.f3_lh
    then format_offset (text "lh") d false
    else if d.funct3 == Opcodes.f3_lw
    then format_offset (text "lw") d false
    else if d.funct3 == Opcodes.f3_lbu
    then format_offset (text "lbu") d false
    else if d.funct3 == Opcodes.f3_lhu
    then format_offset (text "lhu") d false
    else illegal d

unfoldable pub disassemble_store : DecodedInstruction → Text
disassemble_store d =
    if d.funct3 == Opcodes.f3_sb
    then format_offset (text "sb") d true
    else if d.funct3 == Opcodes.f3_sh
    then format_offset (text "sh") d true
    else if d.funct3 == Opcodes.f3_sw
    then format_offset (text "sw") d true
    else illegal d

unfoldable pub disassemble_branch : DecodedInstruction → Text
disassemble_branch d =
    if d.funct3 == Opcodes.f3_beq
    then format_branch (text "beq") d
    else if d.funct3 == Opcodes.f3_bne
    then format_branch (text "bne") d
    else if d.funct3 == Opcodes.f3_blt
    then format_branch (text "blt") d
    else if d.funct3 == Opcodes.f3_bge
    then format_branch (text "bge") d
    else if d.funct3 == Opcodes.f3_bltu
    then format_branch (text "bltu") d
    else if d.funct3 == Opcodes.f3_bgeu
    then format_branch (text "bgeu") d
    else illegal d

unfoldable pub disassemble_misc_mem : DecodedInstruction → Text
disassemble_misc_mem d =
    if d.funct3 == 0 then text "fence" else if d.funct3 == 1 then text "fence.i" else illegal d

unfoldable pub disassemble_system : DecodedInstruction → Text
disassemble_system d =
    let valid_env = d.funct3 == 0 && (d.rd == 0 && d.rs1 == 0) in
    if valid_env && d.imm == 0
    then text "ecall"
    else if valid_env && d.imm == 1
    then text "ebreak"
    else illegal d

unfoldable pub disassemble_instruction : DecodedInstruction → Text
disassemble_instruction d =
    if d.opcode == Opcodes.op
    then disassemble_op d
    else if d.opcode == Opcodes.op_imm
    then disassemble_op_imm d
    else if d.opcode == Opcodes.load
    then disassemble_load d
    else if d.opcode == Opcodes.store
    then disassemble_store d
    else if d.opcode == Opcodes.branch
    then disassemble_branch d
    else if d.opcode == Opcodes.lui
    then format_u (text "lui") d
    else if d.opcode == Opcodes.auipc
    then format_u (text "auipc") d
    else if d.opcode == Opcodes.jal
    then text "jal " ++ (reg d.rd ++ (text ", " ++ hex8 (add32 d.addr d.imm)))
    else if d.opcode == Opcodes.jalr
    then (if d.funct3 == 0 then format_offset (text "jalr") d false else illegal d)
    else if d.opcode == Opcodes.misc_mem
    then disassemble_misc_mem d
    else if d.opcode == Opcodes.system
    then disassemble_system d
    else illegal d
