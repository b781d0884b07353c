-- ===== src/Interpreter/Alu/Signed.antt =====
-- The signed operations of execute_op, execute_op_imm and execute_branch on integers:
-- src/interpreter/interpreter.cpp.
use risc_e.Base.{ℕ, ◌-◌, ◌/◌, ◌^◌, ◌≤◌, ◌<◌, ◌≡◌, ◌≢◌, ◌↔◌, arith, true, none, some}
use risc_e.Base.Word.{sar32, slt32}
use risc_e.Base.Int.{ℤ, pos, negsuc, ◌<ℤ◌, signed32}
use risc_e.Interpreter.Alu.{branch_taken}

-- Comparing the patterns with their sign bits flipped is comparing the integers.
pub slt32_iff :
    (a b : ℕ) → a < 2 ^ 32 → b < 2 ^ 32 → (slt32 a b ≡ true) ↔ (signed32 a <ℤ signed32 b)
slt32_iff a b ha hb = ground arith

-- The floor of an integer divided by a power of two.
abbrev pub floor_shift : ℤ → ℕ → ℤ
floor_shift (pos n) k = pos (n / 2 ^ k)
floor_shift (negsuc n) k = negsuc (n / 2 ^ k)

-- The arithmetic right shift of a word rounds the integer that it stands for down: it is the floor of
-- the quotient by the power of two.
pub sar32-floor_shift : (a k : ℕ) → a < 2 ^ 32 → signed32 (sar32 a k) ≡ floor_shift (signed32 a) k
sar32-floor_shift a k h = ground (arith, quotient a, quotient (2 ^ 32 - 1 - a))
  where
    quotient : (x : ℕ) → x / 2 ^ k ≤ x
    quotient x = omega arith

-- The six conditional branches of the manual.
pub data Comparison : Type 0 where
  beq bne blt bge bltu bgeu : Comparison

abbrev pub funct3_of : Comparison → ℕ
funct3_of beq = 0
funct3_of bne = 1
funct3_of blt = 4
funct3_of bge = 5
funct3_of bltu = 6
funct3_of bgeu = 7

abbrev pub Holds : Comparison → ℕ → ℕ → Type 0
Holds beq a b = a ≡ b
Holds bne a b = a ≢ b
Holds blt a b = signed32 a <ℤ signed32 b
Holds bge a b = ¬ (signed32 a <ℤ signed32 b)
Holds bltu a b = a < b
Holds bgeu a b = b ≤ a

-- Each conditional branch is decided, and is taken exactly when its comparison of the registers
-- holds, as integers for blt and bge and as natural numbers for bltu and bgeu.
pub branch_taken_iff :
    (c : Comparison) (a b : ℕ)
    → a < 2 ^ 32
    → b < 2 ^ 32
    → (branch_taken (funct3_of c) a b ≢ none)
      × ((branch_taken (funct3_of c) a b ≡ some true) ↔ Holds c a b)
unfolding branch_taken
branch_taken_iff beq a b ha hb = ground arith
branch_taken_iff bne a b ha hb = ground arith
branch_taken_iff blt a b ha hb = ground (arith, slt32_iff a b ha hb)
branch_taken_iff bge a b ha hb = ground (arith, slt32_iff a b ha hb)
branch_taken_iff bltu a b ha hb = ground arith
branch_taken_iff bgeu a b ha hb = ground arith
