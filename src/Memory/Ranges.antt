-- ===== src/Memory/Ranges.antt =====
-- The ranges of loaded values, and which of the memory's properties the stores keep.
use risc_e.Base.{
  ℕ, zero, suc, ◌+◌, ◌^◌, ◌<◌, ◌≡◌, arith, Option, none, some, Option-cases, inl, inr,
}
use native.Mathlib.Nat.{pow-suc, one-le-pow}
use risc_e.Cpu.Trap.{TrapCause}
use risc_e.Memory.{PhysicalMemory, load8, load16, load32, fetch32, store8, map_region}
use risc_e.Memory.Pages.{byte_at, load8_lem, byte_at-store8}
use risc_e.Memory.Access.{IsBytes, word_at}
use risc_e.Memory.Words.{load16_lem, load32_lem, fetch32_lem, expected_load}

abbrev value : Option ℕ → ℕ
value none = 0
value (some v) = v

module _ (m : PhysicalMemory) (bytes : IsBytes m) where
  byte_at-lt : (a : ℕ) → value (byte_at m a) < 2 ^ 8
  byte_at-lt a = elim (Option-cases (byte_at m a)) [
    | inl e ↦ rw e (omega arith)
    | inr (v, e) ↦ rw e (bytes a v e)
  ]

  word_at-lt : (a n : ℕ) → value (word_at m a n) < 256 ^ n
  unfolding word_at
  word_at-lt a zero = ground arith
  word_at-lt a (suc n) =
      ground (arith, byte_at-lt a, word_at-lt (a + 1) n, pow-suc n 256, one-le-pow n 256)

  expected_load-lt :
      (a n : ℕ) (misaligned fault : TrapCause) → (expected_load m a n misaligned fault).0 < 256 ^ n
  expected_load-lt a n misaligned fault = ground (arith, word_at-lt a n, one-le-pow n 256)

  pub load8-lt : (a : ℕ) → (load8 m a).0 < 2 ^ 8
  load8-lt a = ground (arith, load8_lem m a, byte_at-lt a)

  module _ (a : ℕ) (bound : a < 2 ^ 32) where
    pub load16-lt : (load16 m a).0 < 2 ^ 16
    load16-lt = rw (load16_lem m a bound bytes) (expected_load-lt a 2 _ _)

    pub load32-lt : (load32 m a).0 < 2 ^ 32
    load32-lt = rw (load32_lem m a bound bytes) (expected_load-lt a 4 _ _)

    pub fetch32-lt : (fetch32 m a).0 < 2 ^ 32
    fetch32-lt = rw (fetch32_lem m a bound bytes) (expected_load-lt a 4 _ _)

pub store8-IsBytes :
    (m : PhysicalMemory) (a v : ℕ) → v < 2 ^ 8 → IsBytes m → IsBytes (store8 m a v).0
store8-IsBytes m a v h bytes b w e = ground (arith, byte_at-store8 m a v b, bytes b w)

pub map_region-has_sink :
    (m : PhysicalMemory) (addr size : ℕ) → (map_region m addr size).has_sink ≡ m.has_sink
unfolding map_region
map_region-has_sink m addr size = ground arith
