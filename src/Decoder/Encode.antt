-- ===== src/Decoder/Encode.antt =====
-- The instruction layouts of the RISC-V manual, as encoders that share nothing with the decoder's
-- masks and shifts, and the round trips through src/decoder/decoder.cpp.
use risc_e.Base.{ℕ, ◌+◌, ◌*◌, ◌/◌, ◌%◌, ◌^◌, ◌≤◌, ◌<◌, ◌≡◌, ◌⊎◌, refl, arith, ap, ◌∙◌}
use risc_e.Decoder.{
  DecodedInstruction, Format, r, i, s, b, u, j, unknown, decode_raw_inst, imm_of_format,
  classify_opcode,
}
use risc_e.Decoder.Fields.{decode-HasFields, HasFields}
use risc_e.Decoder.Immediates.{
  decode_i_imm_sum, decode_s_imm_sum, decode_b_imm_sum, decode_u_imm_sum, decode_j_imm_sum,
}

-- Bits `lo` to `lo + n - 1` of `x`.
abbrev pub slice : ℕ → ℕ → ℕ → ℕ
slice x lo n = x / 2 ^ lo % 2 ^ n

encode_r : DecodedInstruction → ℕ
encode_r d =
    d.funct7 * 2 ^ 25
    + d.rs2 * 2 ^ 20
    + d.rs1 * 2 ^ 15
    + d.funct3 * 2 ^ 12
    + d.rd * 2 ^ 7
    + d.opcode

pub encode : Format → DecodedInstruction → ℕ
unfolding encode_r
encode r d = encode_r d
encode i d =
    slice d.imm 0 12 * 2 ^ 20 + d.rs1 * 2 ^ 15 + d.funct3 * 2 ^ 12 + d.rd * 2 ^ 7 + d.opcode
encode s d =
    slice d.imm 5 7 * 2 ^ 25
    + d.rs2 * 2 ^ 20
    + d.rs1 * 2 ^ 15
    + d.funct3 * 2 ^ 12
    + slice d.imm 0 5 * 2 ^ 7
    + d.opcode
encode b d =
    slice d.imm 12 1 * 2 ^ 31
    + slice d.imm 5 6 * 2 ^ 25
    + d.rs2 * 2 ^ 20
    + d.rs1 * 2 ^ 15
    + d.funct3 * 2 ^ 12
    + slice d.imm 1 4 * 2 ^ 8
    + slice d.imm 11 1 * 2 ^ 7
    + d.opcode
encode u d = slice d.imm 12 20 * 2 ^ 12 + d.rd * 2 ^ 7 + d.opcode
encode j d =
    slice d.imm 20 1 * 2 ^ 31
    + slice d.imm 1 10 * 2 ^ 21
    + slice d.imm 11 1 * 2 ^ 20
    + slice d.imm 12 8 * 2 ^ 12
    + d.rd * 2 ^ 7
    + d.opcode
encode unknown d = encode_r d

imm-decode :
    (w addr : ℕ) (f : Format)
    → classify_opcode (decode_raw_inst w addr).opcode ≡ f
    → (decode_raw_inst w addr).imm ≡ imm_of_format f w
unfolding decode_raw_inst
imm-decode w addr f e = ap (λ g. imm_of_format g w) e

encode_decoded :
    (f : Format) (w : ℕ) (d : DecodedInstruction)
    → w < 2 ^ 32
    → HasFields w d
    → d.imm ≡ imm_of_format f w
    → encode f d ≡ w
unfolding encode imm_of_format
encode_decoded r w d h v e = omega arith
encode_decoded i w d h v e = omega (arith, decode_i_imm_sum w h)
encode_decoded s w d h v e = omega (arith, decode_s_imm_sum w h)
encode_decoded b w d h v e = omega (arith, decode_b_imm_sum w h)
encode_decoded u w d h v e = omega (arith, decode_u_imm_sum w h)
encode_decoded j w d h v e = omega (arith, decode_j_imm_sum w h)
encode_decoded unknown w d h v e = omega arith

-- Decoding a word and encoding the result in the layout of its own format gives the word back, so
-- no bit of an instruction is lost.
pub encode-decode_raw_inst :
    (w addr : ℕ)
    → w < 2 ^ 32
    → let d = decode_raw_inst w addr in encode (classify_opcode d.opcode) d ≡ w
encode-decode_raw_inst w addr h =
    encode_decoded _ w _ h (decode-HasFields w addr) (imm-decode w addr _ refl)

-- The register and function fields are within their widths.
pub record FieldsFit (d : DecodedInstruction) : Type 0 where
  pub opcode : d.opcode < 2 ^ 7
  pub rd : d.rd < 2 ^ 5
  pub funct3 : d.funct3 < 2 ^ 3
  pub rs1 : d.rs1 < 2 ^ 5
  pub rs2 : d.rs2 < 2 ^ 5
  pub funct7 : d.funct7 < 2 ^ 7

-- `x` is a 32-bit pattern whose value needs `n + 1` signed bits.
abbrev pub SignExtended : ℕ → ℕ → Type 0
SignExtended n x = (x < 2 ^ 32) × ((x < 2 ^ n) ⊎ (2 ^ 32 ≤ x + 2 ^ n))

-- The immediates that a format can carry.
abbrev pub ImmFits : Format → ℕ → Type 0
ImmFits r x = x ≡ 0
ImmFits i x = SignExtended 11 x
ImmFits s x = SignExtended 11 x
ImmFits b x = SignExtended 12 x × (x % 2 ≡ 0)
ImmFits u x = (x < 2 ^ 32) × (x % 2 ^ 12 ≡ 0)
ImmFits j x = SignExtended 20 x × (x % 2 ≡ 0)
ImmFits unknown x = x ≡ 0

-- An encoded instruction is a 32-bit word.
encode-lt : (f : Format) (d : DecodedInstruction) → FieldsFit d → encode f d < 2 ^ 32
unfolding encode
encode-lt r d v = omega arith
encode-lt i d v = omega arith
encode-lt s d v = omega arith
encode-lt b d v = omega arith
encode-lt u d v = omega arith
encode-lt j d v = omega arith
encode-lt unknown d v = omega arith

-- The decoder's immediate of an encoded instruction is the one that was encoded.
imm-encode :
    (f : Format) (d : DecodedInstruction)
    → FieldsFit d
    → ImmFits f d.imm
    → imm_of_format f (encode f d) ≡ d.imm
unfolding encode imm_of_format
imm-encode r d v fits = omega arith
imm-encode i d v fits = omega (arith, decode_i_imm_sum _ (encode-lt i d v))
imm-encode s d v fits = omega (arith, decode_s_imm_sum _ (encode-lt s d v))
imm-encode b d v fits = omega (arith, decode_b_imm_sum _ (encode-lt b d v))
imm-encode u d v fits = omega (arith, decode_u_imm_sum _ (encode-lt u d v))
imm-encode j d v fits = omega (arith, decode_j_imm_sum _ (encode-lt j d v))
imm-encode unknown d v fits = omega arith

-- The fields that a layout has room for agree.
abbrev pub SameFields : Format → DecodedInstruction → DecodedInstruction → Type 0
SameFields r d e =
    (e.rd ≡ d.rd)
    × (e.funct3 ≡ d.funct3)
    × (e.rs1 ≡ d.rs1)
    × (e.rs2 ≡ d.rs2)
    × (e.funct7 ≡ d.funct7)
SameFields i d e = (e.rd ≡ d.rd) × (e.funct3 ≡ d.funct3) × (e.rs1 ≡ d.rs1)
SameFields s d e = (e.funct3 ≡ d.funct3) × (e.rs1 ≡ d.rs1) × (e.rs2 ≡ d.rs2)
SameFields b d e = (e.funct3 ≡ d.funct3) × (e.rs1 ≡ d.rs1) × (e.rs2 ≡ d.rs2)
SameFields u d e = e.rd ≡ d.rd
SameFields j d e = e.rd ≡ d.rd
SameFields unknown d e =
    (e.rd ≡ d.rd)
    × (e.funct3 ≡ d.funct3)
    × (e.rs1 ≡ d.rs1)
    × (e.rs2 ≡ d.rs2)
    × (e.funct7 ≡ d.funct7)

opcode-encode : (f : Format) (d : DecodedInstruction) → FieldsFit d → encode f d % 2 ^ 7 ≡ d.opcode
unfolding encode
opcode-encode r d v = omega arith
opcode-encode i d v = omega arith
opcode-encode s d v = omega arith
opcode-encode b d v = omega arith
opcode-encode u d v = omega arith
opcode-encode j d v = omega arith
opcode-encode unknown d v = omega arith

fields-encode :
    (f : Format) (d e : DecodedInstruction)
    → FieldsFit d
    → HasFields (encode f d) e
    → SameFields f d e
unfolding encode
fields-encode r d e v h = omega arith
fields-encode i d e v h = omega arith
fields-encode s d e v h = omega arith
fields-encode b d e v h = omega arith
fields-encode u d e v h = omega arith
fields-encode j d e v h = omega arith
fields-encode unknown d e v h = omega arith

-- An instruction whose fields and immediate fit the format of its opcode comes back from its
-- encoding: the opcode, the sign-extended immediate and every field that the layout has.
pub decode_raw_inst-encode :
    (f : Format) (d : DecodedInstruction) (addr : ℕ)
    → FieldsFit d
    → classify_opcode d.opcode ≡ f
    → ImmFits f d.imm
    → let e = decode_raw_inst (encode f d) addr in
      (e.opcode ≡ d.opcode) × (e.imm ≡ d.imm) × SameFields f d e
decode_raw_inst-encode f d addr v c fits =
    let has = decode-HasFields (encode f d) addr in
    let same : (decode_raw_inst (encode f d) addr).opcode ≡ d.opcode =
      has.opcode ∙ opcode-encode f d v in
    (
      same,
      imm-decode (encode f d) addr f (ap classify_opcode same ∙ c) ∙ imm-encode f d v fits,
      fields-encode f d _ v has,
    )
