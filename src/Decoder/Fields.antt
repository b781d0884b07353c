-- ===== src/Decoder/Fields.antt =====
-- The register and function fields: their ranges, and that with the opcode they are the whole word.
use risc_e.Base.{ℕ, ◌/◌, ◌%◌, ◌^◌, ◌≡◌, refl}
use risc_e.Base.Bits.{bit_and_mask}
use risc_e.Decoder.{DecodedInstruction, decode_raw_inst}

-- The fields as quotients and remainders.
pub record HasFields (inst : ℕ) (d : DecodedInstruction) : Type 0 where
  pub raw : d.raw ≡ inst
  pub opcode : d.opcode ≡ inst % 2 ^ 7
  pub rd : d.rd ≡ inst / 2 ^ 7 % 2 ^ 5
  pub funct3 : d.funct3 ≡ inst / 2 ^ 12 % 2 ^ 3
  pub rs1 : d.rs1 ≡ inst / 2 ^ 15 % 2 ^ 5
  pub rs2 : d.rs2 ≡ inst / 2 ^ 20 % 2 ^ 5
  pub funct7 : d.funct7 ≡ inst / 2 ^ 25 % 2 ^ 7

pub decode-HasFields : (inst addr : ℕ) → HasFields inst (decode_raw_inst inst addr)
unfolding decode_raw_inst
decode-HasFields inst addr = record {
  raw = refl;
  opcode = bit_and_mask 7 inst;
  rd = bit_and_mask 5 (inst / 2 ^ 7);
  funct3 = bit_and_mask 3 (inst / 2 ^ 12);
  rs1 = bit_and_mask 5 (inst / 2 ^ 15);
  rs2 = bit_and_mask 5 (inst / 2 ^ 20);
  funct7 = bit_and_mask 7 (inst / 2 ^ 25);
}
