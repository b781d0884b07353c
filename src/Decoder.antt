-- ===== src/Decoder.antt =====
-- The instruction decoder: src/decoder/decoder.cpp, include/risc-e/decoder/opcodes.hpp and
-- include/risc-e/decoder/decoded_instruction.hpp.
-- A word is a number below 2 ^ 32; the `int32_t` immediate is its bit pattern.
pub mod Opcodes
pub mod Immediates
pub mod Fields
pub mod Encode
pub mod Bounds
pub mod Tests
use Prim.Native.Nat.{bit_and, bit_or}
use risc_e.Base.{ℕ, List, ltb, if◌then◌else◌, get_or, set, replicate}
use risc_e.Base.Word.{◌<<<◌, ◌>>>◌, not32, sar32}
use Opcodes

pub record DecodedInstruction : Type 0 where
  pub addr : ℕ
  pub raw : ℕ
  pub opcode : ℕ
  pub rd : ℕ
  pub funct3 : ℕ
  pub rs1 : ℕ
  pub rs2 : ℕ
  pub funct7 : ℕ
  pub imm : ℕ

pub data Format : Type 0 where
  r i s b u j unknown : Format

unfoldable pub decode_i_imm : ℕ → ℕ
decode_i_imm inst = sar32 inst 20

pub decode_s_imm : ℕ → ℕ
decode_s_imm inst = bit_or (bit_and (sar32 inst 20) (not32 0x1F)) (bit_and (inst >>> 7) 0x1F)

pub decode_b_imm : ℕ → ℕ
decode_b_imm inst =
    bit_or
      (bit_or (bit_or (bit_and (sar32 inst 19) 0xFFFFF000) (bit_and (inst >>> 7) 0x1 <<< 11))
        (bit_and (inst >>> 25) 0x3F <<< 5))
      (bit_and (inst >>> 8) 0xF <<< 1)

pub decode_u_imm : ℕ → ℕ
decode_u_imm inst = bit_and inst 0xFFFFF000

unfoldable pub decode_j_imm : ℕ → ℕ
decode_j_imm inst =
    bit_or
      (bit_or (bit_or (bit_and (sar32 inst 11) 0xFFF00000) (bit_and (inst >>> 12) 0xFF <<< 12))
        (bit_and (inst >>> 20) 0x1 <<< 11))
      (bit_and (inst >>> 21) 0x3FF <<< 1)

-- The array is filled with UNKNOWN and then assigned in the order of the source.
abbrev pub build_format_table : List Format
build_format_table =
    let unknowns = replicate 128 Format.unknown in
    let i_type =
      set
        (set
          (set
            (set (set (set unknowns Opcodes.load Format.i) Opcodes.misc_mem Format.i) Opcodes.op_imm
              Format.i)
            Opcodes.op_imm32 Format.i)
          Opcodes.jalr Format.i)
        Opcodes.system Format.i in
    let u_type = set (set i_type Opcodes.lui Format.u) Opcodes.auipc Format.u in
    let j_type = set u_type Opcodes.jal Format.j in
    let b_type = set j_type Opcodes.branch Format.b in
    let s_type = set (set b_type Opcodes.store Format.s) Opcodes.store_fp Format.s in
    set (set (set s_type Opcodes.op Format.r) Opcodes.op32 Format.r) Opcodes.amo Format.r

unfoldable pub classify_opcode : ℕ → Format
classify_opcode op =
    if ltb op 128 then get_or build_format_table op Format.unknown else Format.unknown

-- The switch over the format.
unfoldable pub imm_of_format : Format → ℕ → ℕ
imm_of_format Format.r inst = 0
imm_of_format Format.i inst = decode_i_imm inst
imm_of_format Format.s inst = decode_s_imm inst
imm_of_format Format.b inst = decode_b_imm inst
imm_of_format Format.u inst = decode_u_imm inst
imm_of_format Format.j inst = decode_j_imm inst
imm_of_format Format.unknown inst = 0

unfoldable pub decode_raw_inst : ℕ → ℕ → DecodedInstruction
decode_raw_inst inst addr = record {
  addr = addr;
  raw = inst;
  opcode = bit_and inst 0x7F;
  rd = bit_and (inst >>> 7) 0x1F;
  funct3 = bit_and (inst >>> 12) 0x7;
  rs1 = bit_and (inst >>> 15) 0x1F;
  rs2 = bit_and (inst >>> 20) 0x1F;
  funct7 = bit_and (inst >>> 25) 0x7F;
  imm = imm_of_format (classify_opcode (bit_and inst 0x7F)) inst;
}
