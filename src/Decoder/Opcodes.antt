-- ===== src/Decoder/Opcodes.antt =====
-- The base opcodes and the funct3 and funct7 encodings of include/risc-e/decoder/opcodes.hpp.
use risc_e.Base.{ℕ}

abbrev pub load : ℕ
load = 0b0000011

abbrev pub misc_mem : ℕ
misc_mem = 0b0001111

abbrev pub op_imm : ℕ
op_imm = 0b0010011

abbrev pub auipc : ℕ
auipc = 0b0010111

abbrev pub store : ℕ
store = 0b0100011

abbrev pub amo : ℕ
amo = 0b0101111

abbrev pub lui : ℕ
lui = 0b0110111

abbrev pub op : ℕ
op = 0b0110011

abbrev pub op_imm32 : ℕ
op_imm32 = 0b0011011

abbrev pub op32 : ℕ
op32 = 0b0111011

abbrev pub store_fp : ℕ
store_fp = 0b0100111

abbrev pub branch : ℕ
branch = 0b1100011

abbrev pub jal : ℕ
jal = 0b1101111

abbrev pub jalr : ℕ
jalr = 0b1100111

abbrev pub system : ℕ
system = 0b1110011

abbrev pub f3_beq : ℕ
f3_beq = 0b000

abbrev pub f3_bne : ℕ
f3_bne = 0b001

abbrev pub f3_blt : ℕ
f3_blt = 0b100

abbrev pub f3_bge : ℕ
f3_bge = 0b101

abbrev pub f3_bltu : ℕ
f3_bltu = 0b110

abbrev pub f3_bgeu : ℕ
f3_bgeu = 0b111

abbrev pub f3_addi : ℕ
f3_addi = 0b000

abbrev pub f3_slti : ℕ
f3_slti = 0b010

abbrev pub f3_sltiu : ℕ
f3_sltiu = 0b011

abbrev pub f3_xori : ℕ
f3_xori = 0b100

abbrev pub f3_ori : ℕ
f3_ori = 0b110

abbrev pub f3_andi : ℕ
f3_andi = 0b111

abbrev pub f3_slli : ℕ
f3_slli = 0b001

abbrev pub f3_srli : ℕ
f3_srli = 0b101

abbrev pub f7_slli : ℕ
f7_slli = 0x00

abbrev pub f7_srai : ℕ
f7_srai = 0x20

abbrev pub f3_add_sub : ℕ
f3_add_sub = 0b000

abbrev pub f3_sll : ℕ
f3_sll = 0b001

abbrev pub f3_slt : ℕ
f3_slt = 0b010

abbrev pub f3_sltu : ℕ
f3_sltu = 0b011

abbrev pub f3_xor : ℕ
f3_xor = 0b100

abbrev pub f3_srl_sra : ℕ
f3_srl_sra = 0b101

abbrev pub f3_or : ℕ
f3_or = 0b110

abbrev pub f3_and : ℕ
f3_and = 0b111

abbrev pub f7_sub_sra : ℕ
f7_sub_sra = 0x20

abbrev pub f3_lb : ℕ
f3_lb = 0b000

abbrev pub f3_lh : ℕ
f3_lh = 0b001

abbrev pub f3_lw : ℕ
f3_lw = 0b010

abbrev pub f3_lbu : ℕ
f3_lbu = 0b100

abbrev pub f3_lhu : ℕ
f3_lhu = 0b101

abbrev pub f3_sb : ℕ
f3_sb = 0b000

abbrev pub f3_sh : ℕ
f3_sh = 0b001

abbrev pub f3_sw : ℕ
f3_sw = 0b010
