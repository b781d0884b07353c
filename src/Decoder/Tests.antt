-- ===== src/Decoder/Tests.antt =====
-- Witnesses for the decoder's theorems, on `addi x5, x6, -3` and `beq x1, x2, -8`.
use risc_e.Base.{◌≡◌, refl, arith}
use risc_e.Decoder.{
  DecodedInstruction, Format, decode_raw_inst, classify_opcode, imm_of_format, decode_b_imm,
}
use risc_e.Decoder.Encode.{encode, encode-decode_raw_inst, decode_raw_inst-encode, SameFields}

encode-decode_raw_inst_example :
    let d = decode_raw_inst 0xffd30293 0 in encode (classify_opcode d.opcode) d ≡ 0xffd30293
encode-decode_raw_inst_example = encode-decode_raw_inst 0xffd30293 0 (omega arith)

abbrev beq_back : DecodedInstruction
beq_back = record {
  addr = 0x100;
  raw = 0xfe208ce3;
  opcode = 0x63;
  rd = 25;
  funct3 = 0;
  rs1 = 1;
  rs2 = 2;
  funct7 = 127;
  imm = 0xfffffff8;
}

beq_back_decoded : decode_raw_inst 0xfe208ce3 0x100 ≡ beq_back
unfolding decode_raw_inst classify_opcode imm_of_format decode_b_imm
beq_back_decoded = refl

decode_raw_inst-encode_example :
    let e = decode_raw_inst (encode Format.b beq_back) 0x100 in
    (e.opcode ≡ beq_back.opcode) × (e.imm ≡ beq_back.imm) × SameFields Format.b beq_back e
unfolding classify_opcode
decode_raw_inst-encode_example =
    decode_raw_inst-encode Format.b beq_back 0x100 (omega arith) refl (omega arith)
