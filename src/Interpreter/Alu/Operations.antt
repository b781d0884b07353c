-- ===== src/Interpreter/Alu/Operations.antt =====
-- The ten register operations of RV32I against execute_op of src/interpreter/interpreter.cpp.
use Prim.Native.Nat.{bit_and, bit_or, bit_xor}
use risc_e.Base.{ℕ, ◌+◌, ◌*◌, ◌/◌, ◌%◌, ◌^◌, ◌<◌, ◌≡◌, ◌⊎◌, refl, arith, some, ltb, if◌then◌else◌}
use risc_e.Base.Word.{sub32, sar32, slt32}
use risc_e.Base.Bits.{bit_and_mask}
use risc_e.Base.Int.{◌<ℤ◌, signed32}
use risc_e.Decoder.{DecodedInstruction}
use risc_e.Interpreter.Alu.{alu_op, alu_result, is_valid_funct7}
use risc_e.Interpreter.Alu.Signed.{floor_shift, slt32_iff, sar32-floor_shift}

pub data Operation : Type 0 where
  add sub sll slt sltu xor srl sra or and : Operation

abbrev pub op_funct3 : Operation → ℕ
op_funct3 add = 0
op_funct3 sub = 0
op_funct3 sll = 1
op_funct3 slt = 2
op_funct3 sltu = 3
op_funct3 xor = 4
op_funct3 srl = 5
op_funct3 sra = 5
op_funct3 or = 6
op_funct3 and = 7

abbrev pub op_funct7 : Operation → ℕ
op_funct7 add = 0
op_funct7 sub = 32
op_funct7 sll = 0
op_funct7 slt = 0
op_funct7 sltu = 0
op_funct7 xor = 0
op_funct7 srl = 0
op_funct7 sra = 32
op_funct7 or = 0
op_funct7 and = 0

-- A flag that tells whether `P`.
abbrev IsFlag {ℓ} : Type ℓ → ℕ → Type ℓ
IsFlag P r = ((r ≡ 1) × P) ⊎ ((r ≡ 0) × ¬ P)

-- What the manual says of the result `r` of the operands `a` and `b`.
abbrev pub IsResult : Operation → ℕ → ℕ → ℕ → Type 0
IsResult add a b r = r ≡ (a + b) % 2 ^ 32
IsResult sub a b r = (r < 2 ^ 32) × ((r + b) % 2 ^ 32 ≡ a)
IsResult sll a b r = r ≡ a * 2 ^ (b % 32) % 2 ^ 32
IsResult slt a b r = IsFlag (signed32 a <ℤ signed32 b) r
IsResult sltu a b r = IsFlag (a < b) r
IsResult xor a b r = r ≡ bit_xor a b
IsResult srl a b r = r ≡ a / 2 ^ (b % 32)
IsResult sra a b r = signed32 r ≡ floor_shift (signed32 a) (b % 32)
IsResult or a b r = r ≡ bit_or a b
IsResult and a b r = r ≡ bit_and a b

module _ (d : DecodedInstruction) (a b : ℕ) (ha : a < 2 ^ 32) (hb : b < 2 ^ 32) where
  -- Each of the ten register operations gives a result, and the one of the RISC-V manual: sums and
  -- differences wrap, slt and sra read the operands as signed integers, sra rounds down, and a shift
  -- uses the low five bits of its amount.
  pub alu_op-IsResult :
      (o : Operation)
      → d.funct3 ≡ op_funct3 o
      → d.funct7 ≡ op_funct7 o
      → (r : ℕ) × (alu_op d a b ≡ some r) × IsResult o a b r
  unfolding alu_op alu_result is_valid_funct7
  alu_op-IsResult add e f = ((a + b) % 2 ^ 32, ground arith, refl)
  alu_op-IsResult sub e f = (sub32 a b, ground arith, ground arith)
  alu_op-IsResult sll e f = (a * 2 ^ (b % 32) % 2 ^ 32, ground (arith, bit_and_mask 5 b), refl)
  alu_op-IsResult slt e f =
      (if slt32 a b then 1 else 0, ground arith, ground (arith, slt32_iff a b ha hb))
  alu_op-IsResult sltu e f = (if ltb a b then 1 else 0, ground arith, ground arith)
  alu_op-IsResult xor e f = (bit_xor a b, ground arith, refl)
  alu_op-IsResult srl e f = (a / 2 ^ (b % 32), ground (arith, bit_and_mask 5 b), refl)
  alu_op-IsResult sra e f =
      (sar32 a (b % 32), ground (arith, bit_and_mask 5 b), sar32-floor_shift a (b % 32) ha)
  alu_op-IsResult or e f = (bit_or a b, ground arith, refl)
  alu_op-IsResult and e f = (bit_and a b, ground arith, refl)
