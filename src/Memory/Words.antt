-- ===== src/Memory/Words.antt =====
-- load16, load32, fetch32, store16 and store32 against the byte map.
use Prim.Native.Nat.{bit_or}
use risc_e.Base.{
  ℕ, suc, ◌+◌, ◌*◌, ◌/◌, ◌%◌, ◌^◌, ◌≤◌, ◌<◌, ◌≡◌, ◌≢◌, arith, none, some, List, [], ◌==◌,
  if◌then◌else◌, Option-cases, Bool-cases, inl, inr, ◌⊎◌, ==_iff,
}
use risc_e.Base.Word.{◌<<<◌}
use risc_e.Base.Bits.{bit_and_mask, sum_bit_or, zero-bit_or}
use risc_e.Cpu.Trap.{TrapCause, Trap}
use risc_e.Memory.{PhysicalMemory, Page, raise_fault, load16, load32, fetch32}
use risc_e.Memory.Pages.{byte_at}
use risc_e.Memory.Access.{IsBytes, word_at, same_page, page_byte, page_byte_first}

-- Four bytes joined by shifts and `|`.
join4 :
    (b0 b1 b2 b3 : ℕ)
    → b0 < 256
    → b1 < 256
    → b2 < 256
    → bit_or (bit_or (bit_or b0 (b1 <<< 8)) (b2 <<< 16)) (b3 <<< 24)
      ≡ b0 + 256 * (b1 + 256 * (b2 + 256 * (b3 + 256 * 0)))
join4 b0 b1 b2 b3 h0 h1 h2 =
    rw
      (
        sum_bit_or 8 b0 b1 h0,
        sum_bit_or 16 (b0 + b1 * 2 ^ 8) b2 (omega arith),
        sum_bit_or 24 (b0 + b1 * 2 ^ 8 + b2 * 2 ^ 16) b3 (omega arith),
      )
      (omega arith)

-- What a load of `n` bytes returns, by the byte map.
abbrev pub expected_load : PhysicalMemory → ℕ → ℕ → TrapCause → TrapCause → ℕ × List Trap
expected_load m a n misaligned fault =
    if a % n == 0
    then elim (word_at m a n) [ none ↦ (0, raise_fault m fault a) | some v ↦ (v, []) ]
    else (0, raise_fault m misaligned a)

module _ (m : PhysicalMemory) (a : ℕ) (bound : a < 2 ^ 32) where
  word_at-unmapped : (n : ℕ) → m.pages (a / 2 ^ 12) ≡ none → word_at m a (suc n) ≡ none
  unfolding word_at byte_at
  word_at-unmapped n e = ground arith

  word4-mapped :
      (page : Page)
      → m.pages (a / 2 ^ 12) ≡ some page
      → a % 2 ^ 12 + 4 ≤ 2 ^ 12
      → word_at m a 4
        ≡ some (
            page (a % 2 ^ 12)
            + 256
              * (page (a % 2 ^ 12 + 1)
                  + 256 * (page (a % 2 ^ 12 + 2) + 256 * (page (a % 2 ^ 12 + 3) + 256 * 0))))
  unfolding word_at byte_at
  word4-mapped page e fits =
      ground (arith, same_page a 1 bound, same_page a 2 bound, same_page a 3 bound)

  load32_mapped :
      (page : Page)
      → IsBytes m
      → m.pages (a / 2 ^ 12) ≡ some page
      → a % 4 ≡ 0
      → load32 m a ≡ (
        page (a % 2 ^ 12)
            + 256
              * (page (a % 2 ^ 12 + 1)
                  + 256 * (page (a % 2 ^ 12 + 2) + 256 * (page (a % 2 ^ 12 + 3) + 256 * 0))),
        [],
      )
  unfolding load32
  load32_mapped page bytes e aligned = ground (
    arith,
    bit_and_mask 2 a,
    bit_and_mask 12 a,
    same_page a 1 bound,
    same_page a 2 bound,
    same_page a 3 bound,
    join4 (page (a % 2 ^ 12)) (page (a % 2 ^ 12 + 1)) (page (a % 2 ^ 12 + 2))
        (page (a % 2 ^ 12 + 3)),
    page_byte_first m a bound bytes e,
    page_byte m a bound bytes 1 e,
    page_byte m a bound bytes 2 e,
  )

  load32_unmapped :
      m.pages (a / 2 ^ 12) ≡ none
      → a % 4 ≡ 0
      → load32 m a ≡ (0, raise_fault m TrapCause.load_fault a)
  unfolding load32
  load32_unmapped e aligned = ground (arith, bit_and_mask 2 a)

  load32_misaligned : a % 4 ≢ 0 → load32 m a ≡ (0, raise_fault m TrapCause.load_misaligned a)
  unfolding load32
  load32_misaligned odd = ground (arith, bit_and_mask 2 a)

  -- load32 on a memory of bytes, at a 32-bit address that is a multiple of 4 and mapped, returns the
  -- little-endian value of its four bytes and calls no trap; at any other address it returns 0, and
  -- the only call of a sink that is set reports the fault or the misalignment.
  pub load32_lem :
      IsBytes m → load32 m a ≡ expected_load m a 4 TrapCause.load_misaligned TrapCause.load_fault
  load32_lem bytes = elim (Bool-cases (a % 4 == 0)) [
    | inl aligned ↦ rw aligned (elim (Option-cases (m.pages (a / 2 ^ 12))) [
      | inl e ↦ rw (word_at-unmapped 3 e) (load32_unmapped e ((==_iff _ _).0 aligned))
      | inr (page, e) ↦
          rw (word4-mapped page e (omega (arith, (==_iff _ _).0 aligned)))
            (load32_mapped page bytes e ((==_iff _ _).0 aligned))
    ])
    | inr odd ↦ rw odd (load32_misaligned (ground arith))
  ]

  fetch32_mapped :
      (page : Page)
      → IsBytes m
      → m.pages (a / 2 ^ 12) ≡ some page
      → a % 4 ≡ 0
      → fetch32 m a ≡ (
        page (a % 2 ^ 12)
            + 256
              * (page (a % 2 ^ 12 + 1)
                  + 256 * (page (a % 2 ^ 12 + 2) + 256 * (page (a % 2 ^ 12 + 3) + 256 * 0))),
        [],
      )
  unfolding fetch32
  fetch32_mapped page bytes e aligned = ground (
    arith,
    bit_and_mask 2 a,
    bit_and_mask 12 a,
    same_page a 0 bound,
    same_page a 1 bound,
    same_page a 2 bound,
    same_page a 3 bound,
    zero-bit_or (page (a % 2 ^ 12)),
    join4 (page (a % 2 ^ 12)) (page (a % 2 ^ 12 + 1)) (page (a % 2 ^ 12 + 2))
        (page (a % 2 ^ 12 + 3)),
    page_byte_first m a bound bytes e,
    page_byte m a bound bytes 1 e,
    page_byte m a bound bytes 2 e,
  )

  fetch32_failing :
      (m.pages (a / 2 ^ 12) ≡ none) ⊎ (a % 4 ≢ 0)
      → fetch32 m a ≡ (
        0,
        raise_fault m
            (if a % 4 == 0
              then TrapCause.instruction_access_fault
              else TrapCause.instruction_address_misaligned)
            a,
      )
  unfolding fetch32
  fetch32_failing h = ground (arith, bit_and_mask 2 a, same_page a 0 bound)

  -- Instruction fetch reads the same word as a load and reports the fetch causes.
  pub fetch32_lem :
      IsBytes m
      → fetch32 m a
        ≡ expected_load m a 4 TrapCause.instruction_address_misaligned
            TrapCause.instruction_access_fault
  fetch32_lem bytes = elim (Bool-cases (a % 4 == 0)) [
    | inl aligned ↦ elim (Option-cases (m.pages (a / 2 ^ 12))) [
      | inl e ↦ rw (fetch32_failing (inl e), aligned, word_at-unmapped 3 e)
      | inr (page, e) ↦ rw (
        fetch32_mapped page bytes e ((==_iff _ _).0 aligned),
        aligned,
        word4-mapped page e (omega (arith, (==_iff _ _).0 aligned)),
      )
    ]
    | inr odd ↦ rw (fetch32_failing (inr (ground arith)), odd)
  ]

  load16_mapped :
      (page : Page)
      → IsBytes m
      → m.pages (a / 2 ^ 12) ≡ some page
      → load16 m a ≡ expected_load m a 2 TrapCause.load_misaligned TrapCause.load_fault
  unfolding load16 word_at byte_at
  load16_mapped page bytes e = ground (
    arith,
    bit_and_mask 1 a,
    bit_and_mask 12 a,
    same_page a 1 bound,
    sum_bit_or 8 (page (a % 2 ^ 12)) (page (a % 2 ^ 12 + 1)),
    page_byte_first m a bound bytes e,
  )

  load16_unmapped :
      m.pages (a / 2 ^ 12) ≡ none
      → load16 m a ≡ expected_load m a 2 TrapCause.load_misaligned TrapCause.load_fault
  unfolding load16 word_at byte_at
  load16_unmapped e = ground (arith, bit_and_mask 1 a)

  pub load16_lem :
      IsBytes m → load16 m a ≡ expected_load m a 2 TrapCause.load_misaligned TrapCause.load_fault
  load16_lem bytes = elim (Option-cases (m.pages (a / 2 ^ 12))) [
    | inl e ↦ load16_unmapped e
    | inr (page, e) ↦ load16_mapped page bytes e
  ]
