-- ===== src/Base/Bits.antt =====
-- `&`, `|` and `^` of words at variables: each acts on disjoint groups of digits separately, keeps
-- a width, and with a mask or on disjoint fields it is arithmetic.
mod Step
use Step.{bit_and_step, bit_or_step, bit_xor_step, max_bit, min_bit, differ_bit}
use Prim.Native.Nat.{
  ℕ, zero, suc, ◌+◌, ◌-◌, ◌*◌, ◌/◌, ◌%◌, ◌^◌, ◌≤◌, ◌<◌, min, max, differ, bit_and, bit_or, bit_xor,
  bit_or-bitwise,
}
use mathlib.Core.Path.{◌≡◌, refl, ap}
use native.Mathlib.Omega.{arith}
use native.Mathlib.Nat.{pow-suc, one-le-pow}

twice_shift : (q k : ℕ) → q * 2 ^ suc k ≡ 2 * (q * 2 ^ k)
twice_shift q k = omega (arith, ap (λ (t : ℕ). q * t) (pow-suc 2 k))

-- An operation that is given digit by digit: `g` says what it does to one pair of digits.
module _ (f g : ℕ → ℕ → ℕ) (step : (a b : ℕ) → f a b ≡ f (a / 2) (b / 2) * 2 + g (a % 2) (b % 2))
    (bit : (a b : ℕ) → a < 2 → b < 2 → g a b < 2) (empty : f 0 0 ≡ 0) where
  -- The low `k` digits and the rest do not mix.
  split_fields :
      (k q r p s : ℕ)
      → r < 2 ^ k
      → s < 2 ^ k
      → f (q * 2 ^ k + r) (p * 2 ^ k + s) ≡ f q p * 2 ^ k + f r s
  split_fields zero q r p s hr hs = ground (arith, empty)
  split_fields (suc k) q r p s hr hs = ground (
    arith,
    step (q * 2 ^ suc k + r) (p * 2 ^ suc k + s),
    step r s,
    twice_shift q k,
    twice_shift p k,
    twice_shift (f q p) k,
    pow-suc 2 k,
    split_fields k q (r / 2) p (s / 2) (omega (arith, pow-suc 2 k)) (omega (arith, pow-suc 2 k)),
  )

  width : (k a b : ℕ) → a < 2 ^ k → b < 2 ^ k → f a b < 2 ^ k
  width zero a b ha hb = ground (arith, empty)
  width (suc k) a b ha hb = omega (
    arith,
    step a b,
    bit (a % 2) (b % 2) (omega arith) (omega arith),
    pow-suc 2 k,
    width k (a / 2) (b / 2) (omega (arith, pow-suc 2 k)) (omega (arith, pow-suc 2 k)),
  )

pub bit_and-lt : (k a b : ℕ) → a < 2 ^ k → b < 2 ^ k → bit_and a b < 2 ^ k
bit_and-lt = width bit_and min bit_and_step min_bit refl

pub bit_or-lt : (k a b : ℕ) → a < 2 ^ k → b < 2 ^ k → bit_or a b < 2 ^ k
bit_or-lt = width bit_or max bit_or_step max_bit refl

pub bit_xor-lt : (k a b : ℕ) → a < 2 ^ k → b < 2 ^ k → bit_xor a b < 2 ^ k
bit_xor-lt = width bit_xor differ bit_xor_step differ_bit refl

pub bit_and_fields :
    (k q r p s : ℕ)
    → r < 2 ^ k
    → s < 2 ^ k
    → bit_and (q * 2 ^ k + r) (p * 2 ^ k + s) ≡ bit_and q p * 2 ^ k + bit_and r s
bit_and_fields = split_fields bit_and min bit_and_step min_bit refl

pub bit_or_fields :
    (k q r p s : ℕ)
    → r < 2 ^ k
    → s < 2 ^ k
    → bit_or (q * 2 ^ k + r) (p * 2 ^ k + s) ≡ bit_or q p * 2 ^ k + bit_or r s
bit_or_fields = split_fields bit_or max bit_or_step max_bit refl

-- One operand is zero.
and_zero_below : (k a : ℕ) → a < 2 ^ k → bit_and a 0 ≡ 0
and_zero_below zero a h = ground arith
and_zero_below (suc k) a h =
    omega (arith, bit_and_step a 0, and_zero_below k (a / 2) (omega (arith, pow-suc 2 k)))

or_zero_below : (k a : ℕ) → a < 2 ^ k → bit_or a 0 ≡ a
or_zero_below zero a h = ground arith
or_zero_below (suc k) a h =
    omega (arith, bit_or_step a 0, or_zero_below k (a / 2) (omega (arith, pow-suc 2 k)))

lt-two-pow : (a : ℕ) → a < 2 ^ a
lt-two-pow zero = omega arith
lt-two-pow (suc a) = omega (arith, pow-suc 2 a, lt-two-pow a)

pub bit_and-zero : (a : ℕ) → bit_and a 0 ≡ 0
bit_and-zero a = and_zero_below a a (lt-two-pow a)

pub bit_or-zero : (a : ℕ) → bit_or a 0 ≡ a
bit_or-zero a = or_zero_below a a (lt-two-pow a)

-- A mask of ones keeps what fits it.
and_ones_below : (k r : ℕ) → r < 2 ^ k → bit_and r (2 ^ k - 1) ≡ r
and_ones_below zero r h = ground arith
and_ones_below (suc k) r h = ground (
  arith,
  bit_and_step r (2 ^ suc k - 1),
  pow-suc 2 k,
  one-le-pow k 2,
  and_ones_below k (r / 2) (omega (arith, pow-suc 2 k)),
)

-- `a & (2^k - 1)` is the remainder by `2^k`.
pub bit_and_mask : (k a : ℕ) → bit_and a (2 ^ k - 1) ≡ a % 2 ^ k
bit_and_mask k a = ground (
  arith,
  one-le-pow k 2,
  bit_and_fields k (a / 2 ^ k) (a % 2 ^ k) 0 (2 ^ k - 1),
  bit_and-zero (a / 2 ^ k),
  and_ones_below k (a % 2 ^ k),
)

pub zero-bit_or : (r : ℕ) → bit_or 0 r ≡ r
zero-bit_or r = bit_or-bitwise 0 r

-- `(q << k) | r` is a sum when `r` fits the `k` digits below.
pub bit_or_sum : (k q r : ℕ) → r < 2 ^ k → bit_or (q * 2 ^ k) r ≡ q * 2 ^ k + r
bit_or_sum k q r h =
    ground (arith, one-le-pow k 2, bit_or_fields k q 0 0 r, bit_or-zero q, zero-bit_or r)

-- The bits from `k` up, below `k + n`.
pub bit_and_high : (k n a : ℕ) → bit_and a ((2 ^ n - 1) * 2 ^ k) ≡ a / 2 ^ k % 2 ^ n * 2 ^ k
bit_and_high k n a = ground (
  arith,
  one-le-pow k 2,
  bit_and_fields k (a / 2 ^ k) (a % 2 ^ k) (2 ^ n - 1) 0,
  bit_and_mask n (a / 2 ^ k),
  bit_and-zero (a % 2 ^ k),
)

-- The same with the low field in front.
pub sum_bit_or : (k r q : ℕ) → r < 2 ^ k → bit_or r (q * 2 ^ k) ≡ r + q * 2 ^ k
sum_bit_or k r q h =
    ground (arith, one-le-pow k 2, bit_or_fields k 0 r q 0, zero-bit_or q, bit_or-zero r)

and_le_below : (k a b : ℕ) → b < 2 ^ k → bit_and a b ≤ b
and_le_below zero a b h = ground (arith, bit_and-zero a)
and_le_below (suc k) a b h =
    omega (arith, bit_and_step a b, and_le_below k (a / 2) (b / 2) (omega (arith, pow-suc 2 k)))

-- A masked value is at most the mask.
pub bit_and-le : (a b : ℕ) → bit_and a b ≤ b
bit_and-le a b = and_le_below b a b (lt-two-pow b)
