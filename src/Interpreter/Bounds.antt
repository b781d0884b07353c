-- ===== src/Interpreter/Bounds.antt =====
-- Ranges of the values that execute writes: 32-bit results from 32-bit operands.
use Prim.Native.Nat.{bit_and}
use risc_e.Base.{ℕ, ◌-◌, ◌/◌, ◌^◌, ◌≤◌, ◌<◌, ◌≡◌, arith, some}
use risc_e.Base.Word.{sar32}
use risc_e.Base.Bits.{bit_and-lt, bit_or-lt, bit_xor-lt}
use risc_e.Decoder.{DecodedInstruction}
use risc_e.Interpreter.Alu.{alu_imm, alu_op, alu_result, shift_imm}

div-le : (a b : ℕ) → a / b ≤ a
div-le a b = omega arith

sar32-lt : (a k : ℕ) → a < 2 ^ 32 → sar32 a k < 2 ^ 32
sar32-lt a k h = ground (arith, div-le a (2 ^ k), div-le (2 ^ 32 - 1 - a) (2 ^ k))

module _ (d : DecodedInstruction) (a v : ℕ) (ha : a < 2 ^ 32) where
  shift_imm-lt : shift_imm d a < 2 ^ 32
  unfolding shift_imm
  shift_imm-lt =
      ground (arith, sar32-lt a (bit_and d.rs2 0x1F) ha, div-le a (2 ^ bit_and d.rs2 0x1F))

  pub alu_imm-lt : d.imm < 2 ^ 32 → alu_imm d a ≡ some v → v < 2 ^ 32
  unfolding alu_imm
  alu_imm-lt hi e = ground (
    arith,
    shift_imm-lt,
    bit_xor-lt 32 a d.imm ha hi,
    bit_or-lt 32 a d.imm ha hi,
    bit_and-lt 32 a d.imm ha hi,
  )

  module _ (b : ℕ) (hb : b < 2 ^ 32) where
    alu_result-lt : alu_result d a b ≡ some v → v < 2 ^ 32
    unfolding alu_result
    alu_result-lt e = ground (
      arith,
      sar32-lt a (bit_and b 0x1F) ha,
      div-le a (2 ^ bit_and b 0x1F),
      bit_xor-lt 32 a b ha hb,
      bit_or-lt 32 a b ha hb,
      bit_and-lt 32 a b ha hb,
    )

    pub alu_op-lt : alu_op d a b ≡ some v → v < 2 ^ 32
    unfolding alu_op
    alu_op-lt e = ground (arith, alu_result-lt)
