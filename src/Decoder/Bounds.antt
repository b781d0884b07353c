-- ===== src/Decoder/Bounds.antt =====
-- The ranges of what src/decoder/decoder.cpp returns.
use risc_e.Base.{ℕ, ◌^◌, ◌<◌, refl, arith}
use risc_e.Decoder.{
  Format, r, i, s, b, u, j, unknown, decode_raw_inst, imm_of_format, classify_opcode,
}
use risc_e.Decoder.Fields.{decode-HasFields}
use risc_e.Decoder.Immediates.{
  decode_i_imm_sum, decode_s_imm_sum, decode_b_imm_sum, decode_u_imm_sum, decode_j_imm_sum,
}
use risc_e.Decoder.Encode.{FieldsFit, ImmFits}

imm_of_format-ImmFits : (f : Format) (w : ℕ) → w < 2 ^ 32 → ImmFits f (imm_of_format f w)
unfolding imm_of_format
imm_of_format-ImmFits r w h = refl
imm_of_format-ImmFits i w h = ground (arith, decode_i_imm_sum w h)
imm_of_format-ImmFits s w h = ground (arith, decode_s_imm_sum w h)
imm_of_format-ImmFits b w h = ground (arith, decode_b_imm_sum w h)
imm_of_format-ImmFits u w h = ground (arith, decode_u_imm_sum w h)
imm_of_format-ImmFits j w h = ground (arith, decode_j_imm_sum w h)
imm_of_format-ImmFits unknown w h = refl

ImmFits-lt : (f : Format) (x : ℕ) → ImmFits f x → x < 2 ^ 32
ImmFits-lt r x h = omega arith
ImmFits-lt i x h = omega arith
ImmFits-lt s x h = omega arith
ImmFits-lt b x h = omega arith
ImmFits-lt u x h = omega arith
ImmFits-lt j x h = omega arith
ImmFits-lt unknown x h = omega arith

module _ (w addr : ℕ) where
  pub decode_raw_inst-FieldsFit : FieldsFit (decode_raw_inst w addr)
  decode_raw_inst-FieldsFit =
      let has = decode-HasFields w addr in
      record {
        opcode = omega arith;
        rd = omega arith;
        funct3 = omega arith;
        rs1 = omega arith;
        rs2 = omega arith;
        funct7 = omega arith;
      }

  -- The immediate of a decoded word is one that its format can carry: sign-extended from its width,
  -- even for branches and jumps, and a multiple of 4096 for lui and auipc.
  pub decode_raw_inst-ImmFits :
      w < 2 ^ 32 → let d = decode_raw_inst w addr in ImmFits (classify_opcode d.opcode) d.imm
  unfolding decode_raw_inst
  decode_raw_inst-ImmFits h = imm_of_format-ImmFits _ w h

  pub decode_imm-lt : w < 2 ^ 32 → (decode_raw_inst w addr).imm < 2 ^ 32
  decode_imm-lt h = ImmFits-lt _ _ (decode_raw_inst-ImmFits h)
