-- ===== src/Memory/Access.antt =====
-- Accesses within one page. An aligned word never crosses a page, so it is mapped as a whole.
use risc_e.Base.{
  ℕ, zero, suc, ◌+◌, ◌-◌, ◌*◌, ◌/◌, ◌%◌, ◌^◌, ◌≤◌, ◌<◌, ◌≡◌, ◌≢◌, refl, arith, Option, none, some,
}
use risc_e.Base.Word.{add32}
use risc_e.Base.Bits.{bit_and_mask}
use risc_e.Cpu.Trap.{TrapCause}
use risc_e.Memory.{
  PhysicalMemory, Page, done, failed, raise_fault, read_byte, check_alignment, check_range,
  check_mapped, check_mapped_from,
}
use risc_e.Memory.Pages.{byte_at}
use Prim.Native.Nat.{bit_and}

-- Every mapped byte is below 256.
abbrev pub IsBytes : PhysicalMemory → Type 0
IsBytes m = (a v : ℕ) → byte_at m a ≡ some v → v < 2 ^ 8

-- The `n` bytes from `a` on as a little-endian number, if all are mapped.
unfoldable pub word_at : PhysicalMemory → ℕ → ℕ → Option ℕ
word_at m a zero = some 0
word_at m a (suc n) = elim (byte_at m a) [
  | none ↦ none
  | some low ↦ elim (word_at m (a + 1) n) [ none ↦ none | some high ↦ some (low + 256 * high) ]
]

-- Byte `k` of an access at `a` that stays in one page.
pub same_page :
    (a k : ℕ)
    → a < 2 ^ 32
    → a % 2 ^ 12 + k < 2 ^ 12
    → (add32 a k ≡ a + k)
      × ((a + k) / 2 ^ 12 ≡ a / 2 ^ 12)
      × ((a + k) % 2 ^ 12 ≡ a % 2 ^ 12 + k)
      × (bit_and (a + k) (2 ^ 12 - 1) ≡ a % 2 ^ 12 + k)
same_page a k h fits = omega (arith, bit_and_mask 12 (a + k))

module _ (m : PhysicalMemory) (a : ℕ) (bound : a < 2 ^ 32) where
  pub read_byte-mapped :
      (k : ℕ) {page : Page}
      → m.pages (a / 2 ^ 12) ≡ some page
      → a % 2 ^ 12 + k < 2 ^ 12
      → read_byte m (add32 a k) ≡ done (page (a % 2 ^ 12 + k))
  unfolding read_byte
  read_byte-mapped k e fits =
      rw ((same_page a k bound fits).0) (ground (arith, same_page a k bound fits))

  pub check_mapped_from-mapped :
      (cause : TrapCause) (left i : ℕ) {page : Page}
      → m.pages (a / 2 ^ 12) ≡ some page
      → a % 2 ^ 12 + i + left ≤ 2 ^ 12
      → check_mapped_from m a cause left i ≡ done tt
  unfolding check_mapped_from
  check_mapped_from-mapped cause zero i e fits = refl
  check_mapped_from-mapped cause (suc left) i e fits =
      ground (arith, same_page a i bound, check_mapped_from-mapped cause left (i + 1) e)

  pub byte_at-mapped :
      (k : ℕ) {page : Page}
      → m.pages (a / 2 ^ 12) ≡ some page
      → a % 2 ^ 12 + k < 2 ^ 12
      → byte_at m (a + k) ≡ some (page (a % 2 ^ 12 + k))
  unfolding byte_at
  byte_at-mapped k e fits = ground (arith, same_page a k bound fits)

  pub page_byte :
      IsBytes m
      → (k : ℕ) {page : Page} → m.pages (a / 2 ^ 12) ≡ some page
      → a % 2 ^ 12 + k < 2 ^ 12
      → page (a % 2 ^ 12 + k) < 2 ^ 8
  page_byte bytes k e fits = bytes (a + k) _ (byte_at-mapped k e fits)

  pub page_byte_first :
      IsBytes m → {page : Page} → m.pages (a / 2 ^ 12) ≡ some page → page (a % 2 ^ 12) < 2 ^ 8
  unfolding byte_at
  page_byte_first bytes e = bytes a _ (rw (e, byte_at))

-- The checks of an aligned access of two or four bytes to a mapped page all pass.
module _ (m : PhysicalMemory) (a : ℕ) (bound : a < 2 ^ 32) (misaligned fault : TrapCause) where
  pub checks2_pass :
      {page : Page}
      → m.pages (a / 2 ^ 12) ≡ some page
      → a % 2 ≡ 0
      → (check_alignment m a 2 misaligned ≡ done tt)
        × (check_range m a 2 fault ≡ done tt)
        × (check_mapped m a 2 fault ≡ done tt)
  unfolding check_alignment check_range check_mapped
  checks2_pass e aligned = (
    ground (arith, bit_and_mask 1 a),
    ground arith,
    check_mapped_from-mapped m a bound fault 2 0 e (omega arith),
  )

  pub checks4_pass :
      {page : Page}
      → m.pages (a / 2 ^ 12) ≡ some page
      → a % 4 ≡ 0
      → (check_alignment m a 4 misaligned ≡ done tt)
        × (check_range m a 4 fault ≡ done tt)
        × (check_mapped m a 4 fault ≡ done tt)
  unfolding check_alignment check_range check_mapped
  checks4_pass e aligned = (
    ground (arith, bit_and_mask 2 a),
    ground arith,
    check_mapped_from-mapped m a bound fault 4 0 e (omega arith),
  )

  pub misaligned2 :
      a % 2 ≢ 0 → check_alignment m a 2 misaligned ≡ failed (raise_fault m misaligned a)
  unfolding check_alignment
  misaligned2 odd = ground (arith, bit_and_mask 1 a)

  pub misaligned4 :
      a % 4 ≢ 0 → check_alignment m a 4 misaligned ≡ failed (raise_fault m misaligned a)
  unfolding check_alignment
  misaligned4 odd = ground (arith, bit_and_mask 2 a)

  -- Where the page is missing, an aligned access is reported at its first byte.
  pub unmapped2 :
      m.pages (a / 2 ^ 12) ≡ none
      → a % 2 ≡ 0
      → (check_alignment m a 2 misaligned ≡ done tt)
        × (check_range m a 2 fault ≡ done tt)
        × (check_mapped m a 2 fault ≡ failed (raise_fault m fault a))
  unfolding check_alignment check_range check_mapped
  unmapped2 e aligned =
      (ground (arith, bit_and_mask 1 a), ground arith, ground (arith, same_page a 0 bound))

  pub unmapped4 :
      m.pages (a / 2 ^ 12) ≡ none
      → a % 4 ≡ 0
      → (check_alignment m a 4 misaligned ≡ done tt)
        × (check_range m a 4 fault ≡ done tt)
        × (check_mapped m a 4 fault ≡ failed (raise_fault m fault a))
  unfolding check_alignment check_range check_mapped
  unmapped4 e aligned =
      (ground (arith, bit_and_mask 2 a), ground arith, ground (arith, same_page a 0 bound))
