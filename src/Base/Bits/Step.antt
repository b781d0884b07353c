-- ===== src/Base/Bits/Step.antt =====
-- The digit recursion of the native operations with its count dropped: an equation that takes off
-- the lowest digit.
use Prim.Native.Nat.{
  ℕ, zero, suc, ◌+◌, ◌*◌, ◌/◌, ◌%◌, ◌≤◌, ◌<◌, min, max, differ, digits, bit_and, bit_or, bit_xor,
  bit_and-bitwise, bit_or-bitwise, bit_xor-bitwise,
}
use mathlib.Core.Path.{◌≡◌, refl, ◌∙◌, ap, sym}
use native.Mathlib.Omega.{arith}

-- Any count from the first number on serves; `k` bounds the count for the recursion.
module _ (z : ℕ → ℕ) (f : ℕ → ℕ → ℕ) where
  enough_digits : (k n a b : ℕ) → n ≤ k → a ≤ n → digits z f n a b ≡ digits z f a a b
  enough_digits k zero zero b hk h = refl
  enough_digits k zero (suc a) b hk h = absurd (omega arith)
  enough_digits k (suc n) zero b hk h = refl
  enough_digits zero (suc n) (suc a) b hk h = absurd (omega arith)
  enough_digits (suc k) (suc n) (suc a) b hk h =
      let longer = enough_digits k n (suc a / 2) (b / 2) (omega arith) (omega arith) in
      let shorter = enough_digits k a (suc a / 2) (b / 2) (omega arith) (omega arith) in
      ap (λ (t : ℕ). t * 2 + f (suc a % 2) (b % 2)) (longer ∙ sym shorter)

  lowest_digit :
      (a b : ℕ)
      → digits z f (suc a) (suc a) b
        ≡ digits z f (suc a / 2) (suc a / 2) (b / 2) * 2 + f (suc a % 2) (b % 2)
  lowest_digit a b =
      ap (λ (t : ℕ). t * 2 + f (suc a % 2) (b % 2))
        (enough_digits a a (suc a / 2) (b / 2) (omega arith) (omega arith))

pub bit_and_step : (a b : ℕ) → bit_and a b ≡ bit_and (a / 2) (b / 2) * 2 + min (a % 2) (b % 2)
bit_and_step zero b = omega (arith, bit_and-bitwise 0 b, bit_and-bitwise 0 (b / 2))
bit_and_step (suc a) b = simp bit_and-bitwise (lowest_digit (λ b. 0) min a b)

pub bit_or_step : (a b : ℕ) → bit_or a b ≡ bit_or (a / 2) (b / 2) * 2 + max (a % 2) (b % 2)
bit_or_step zero b = omega (arith, bit_or-bitwise 0 b, bit_or-bitwise 0 (b / 2))
bit_or_step (suc a) b = simp bit_or-bitwise (lowest_digit (λ b. b) max a b)

pub bit_xor_step : (a b : ℕ) → bit_xor a b ≡ bit_xor (a / 2) (b / 2) * 2 + differ (a % 2) (b % 2)
bit_xor_step zero b = ground (arith, bit_xor-bitwise 0 b, bit_xor-bitwise 0 (b / 2))
bit_xor_step (suc a) b = simp bit_xor-bitwise (lowest_digit (λ b. b) differ a b)

pub min_bit : (a b : ℕ) → a < 2 → b < 2 → min a b < 2
min_bit a b ha hb = omega arith

pub max_bit : (a b : ℕ) → a < 2 → b < 2 → max a b < 2
max_bit a b ha hb = omega arith

pub differ_bit : (a b : ℕ) → a < 2 → b < 2 → differ a b < 2
differ_bit zero b ha hb = hb
differ_bit (suc zero) zero ha hb = omega arith
differ_bit (suc zero) (suc zero) ha hb = omega arith
differ_bit (suc zero) (suc (suc b)) ha hb = absurd (omega arith)
differ_bit (suc (suc a)) b ha hb = absurd (omega arith)
