-- ===== src/Decoder/Immediates.antt =====
-- The immediates as sums of bit fields: what the shifts, masks and `|` of the decode functions
-- compute, with the sign in front.
use Prim.Native.Nat.{bit_or}
use risc_e.Base.{ℕ, ◌+◌, ◌-◌, ◌*◌, ◌/◌, ◌%◌, ◌^◌, ◌<◌, ◌≡◌, ◌∙◌, arith}
use risc_e.Base.Word.{sar32}
use risc_e.Base.Bits.{bit_and_mask, bit_and_high, bit_or_sum}
use risc_e.Decoder.{decode_i_imm, decode_s_imm, decode_b_imm, decode_u_imm, decode_j_imm}

-- Two fields joined by `|`, where the upper one is a multiple of `2 ^ k`.
or_join : (k q r a b : ℕ) → a ≡ q * 2 ^ k → b ≡ r → r < 2 ^ k → bit_or a b ≡ q * 2 ^ k + r
or_join k q r a b ea eb h = rw (ea, eb) (bit_or_sum k q r h)

pub decode_i_imm_sum :
    (inst : ℕ)
    → inst < 2 ^ 32
    → decode_i_imm inst ≡ inst / 2 ^ 31 * (2 ^ 32 - 2 ^ 12) + inst / 2 ^ 20
unfolding decode_i_imm
decode_i_imm_sum inst h = ground arith

pub decode_s_imm_sum :
    (inst : ℕ)
    → inst < 2 ^ 32
    → decode_s_imm inst
      ≡ inst / 2 ^ 31 * (2 ^ 32 - 2 ^ 12) + inst / 2 ^ 25 * 2 ^ 5 + inst / 2 ^ 7 % 2 ^ 5
unfolding decode_s_imm
decode_s_imm_sum inst h = ground (
  arith,
  bit_and_high 5 27 (sar32 inst 20),
  bit_and_mask 5 (inst / 2 ^ 7),
  bit_or_sum 5 (sar32 inst 20 / 2 ^ 5 % 2 ^ 27) (inst / 2 ^ 7 % 2 ^ 5),
)

pub decode_u_imm_sum : (inst : ℕ) → inst < 2 ^ 32 → decode_u_imm inst ≡ inst / 2 ^ 12 * 2 ^ 12
unfolding decode_u_imm
decode_u_imm_sum inst h = ground (arith, bit_and_high 12 20 inst)

-- The four fields of a branch or jump offset, from the sign down to bit 1.
or_fields :
    (k l m h x y z a b c d : ℕ)
    → a ≡ h * 2 ^ k
    → b ≡ x
    → x < 2 ^ k
    → (q : ℕ) → h * 2 ^ k + x ≡ q * 2 ^ l
    → c ≡ y
    → y < 2 ^ l
    → (p : ℕ) → q * 2 ^ l + y ≡ p * 2 ^ m
    → d ≡ z
    → z < 2 ^ m
    → bit_or (bit_or (bit_or a b) c) d ≡ h * 2 ^ k + x + y + z
or_fields k l m h x y z a b c d ea eb hx q eq ec hy p ep ed hz =
    let first = or_join k h x a b ea eb hx in
    let second = or_join l q y (bit_or a b) c (first ∙ eq) ec hy in
    let third = or_join m p z (bit_or (bit_or a b) c) d (second ∙ ep) ed hz in
    omega (arith, third, ep, eq)

pub decode_b_imm_sum :
    (inst : ℕ)
    → inst < 2 ^ 32
    → decode_b_imm inst
      ≡ inst / 2 ^ 31 * (2 ^ 20 - 1) * 2 ^ 12
        + inst / 2 ^ 7 % 2 * 2 ^ 11
        + inst / 2 ^ 25 % 2 ^ 6 * 2 ^ 5
        + inst / 2 ^ 8 % 2 ^ 4 * 2
unfolding decode_b_imm
decode_b_imm_sum inst h =
    or_fields 12 11 5 (inst / 2 ^ 31 * (2 ^ 20 - 1)) (inst / 2 ^ 7 % 2 * 2 ^ 11)
      (inst / 2 ^ 25 % 2 ^ 6 * 2 ^ 5) (inst / 2 ^ 8 % 2 ^ 4 * 2) _ _ _ _
      (ground (arith, bit_and_high 12 20 (sar32 inst 19)))
      (ground (arith, bit_and_mask 1 (inst / 2 ^ 7))) (omega arith)
      (inst / 2 ^ 31 * (2 ^ 20 - 1) * 2 + inst / 2 ^ 7 % 2) (omega arith)
      (ground (arith, bit_and_mask 6 (inst / 2 ^ 25))) (omega arith)
      ((inst / 2 ^ 31 * (2 ^ 20 - 1) * 2 + inst / 2 ^ 7 % 2) * 2 ^ 6 + inst / 2 ^ 25 % 2 ^ 6)
      (omega arith) (ground (arith, bit_and_mask 4 (inst / 2 ^ 8))) (omega arith)

pub decode_j_imm_sum :
    (inst : ℕ)
    → inst < 2 ^ 32
    → decode_j_imm inst
      ≡ inst / 2 ^ 31 * (2 ^ 12 - 1) * 2 ^ 20
        + inst / 2 ^ 12 % 2 ^ 8 * 2 ^ 12
        + inst / 2 ^ 20 % 2 * 2 ^ 11
        + inst / 2 ^ 21 % 2 ^ 10 * 2
unfolding decode_j_imm
decode_j_imm_sum inst h =
    or_fields 20 12 11 (inst / 2 ^ 31 * (2 ^ 12 - 1)) (inst / 2 ^ 12 % 2 ^ 8 * 2 ^ 12)
      (inst / 2 ^ 20 % 2 * 2 ^ 11) (inst / 2 ^ 21 % 2 ^ 10 * 2) _ _ _ _
      (ground (arith, bit_and_high 20 12 (sar32 inst 11)))
      (ground (arith, bit_and_mask 8 (inst / 2 ^ 12))) (omega arith)
      (inst / 2 ^ 31 * (2 ^ 12 - 1) * 2 ^ 8 + inst / 2 ^ 12 % 2 ^ 8) (omega arith)
      (ground (arith, bit_and_mask 1 (inst / 2 ^ 20))) (omega arith)
      ((inst / 2 ^ 31 * (2 ^ 12 - 1) * 2 ^ 8 + inst / 2 ^ 12 % 2 ^ 8) * 2 + inst / 2 ^ 20 % 2)
      (omega arith) (ground (arith, bit_and_mask 10 (inst / 2 ^ 21))) (omega arith)
