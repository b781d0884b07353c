-- ===== src/Memory/Pages.antt =====
-- Single bytes: the abstract memory, a partial map from addresses to bytes, and what `read_byte` and
-- `write_byte` do to it.
use risc_e.Base.{
  ℕ, ◌/◌, ◌%◌, ◌^◌, ◌≡◌, arith, Option, none, some, [], ◌==◌, if◌then◌else◌, Option-cases, inl, inr,
}
use risc_e.Base.Bits.{bit_and_mask}
use risc_e.Cpu.Trap.{TrapCause}
use risc_e.Memory.{
  PhysicalMemory, Page, done, failed, raise_fault, read_byte, write_byte, load8, store8,
}

-- The byte at an address, if its page is mapped.
unfoldable pub byte_at : PhysicalMemory → ℕ → Option ℕ
byte_at m a = elim (m.pages (a / 2 ^ 12)) [ none ↦ none | some page ↦ some (page (a % 2 ^ 12)) ]

pub read_byte_lem :
    (m : PhysicalMemory) (a : ℕ)
    → read_byte m a ≡ elim (byte_at m a) [
      | none ↦ failed (raise_fault m TrapCause.load_fault a)
      | some v ↦ done v
    ]
unfolding read_byte byte_at
read_byte_lem m a = ground (arith, bit_and_mask 12 a)

-- A write to a mapped address changes that byte alone; to an unmapped one, nothing.
pub byte_at-write_byte :
    (m : PhysicalMemory) (a v b : ℕ) {page : Page}
    → m.pages (a / 2 ^ 12) ≡ some page
    → byte_at (write_byte m a v).0 b ≡ (if a == b then some v else byte_at m b)
unfolding write_byte byte_at
byte_at-write_byte m a v b e = ground (arith, bit_and_mask 12 a)

-- store8 and load8, on every address.
pub byte_at-store8 :
    (m : PhysicalMemory) (a v b : ℕ)
    → byte_at (store8 m a v).0 b ≡ elim (byte_at m a) [
      | none ↦ byte_at m b
      | some old ↦ if a == b then some v else byte_at m b
    ]
byte_at-store8 m a v b = elim (Option-cases (m.pages (a / 2 ^ 12))) [
  | inl e ↦ unfold store8 write_byte byte_at in rw (e, write_byte, byte_at)
  | inr (page, e) ↦
      unfold store8 in rw (byte_at-write_byte m a v b e) (unfold byte_at in rw (e, byte_at))
]

pub traps-store8 :
    (m : PhysicalMemory) (a v : ℕ)
    → (store8 m a v).1
      ≡ elim (byte_at m a) [ none ↦ raise_fault m TrapCause.store_fault a | some old ↦ [] ]
unfolding store8 write_byte byte_at
traps-store8 m a v = ground arith

pub load8_lem :
    (m : PhysicalMemory) (a : ℕ)
    → load8 m a
      ≡ elim (byte_at m a) [ none ↦ (0, raise_fault m TrapCause.load_fault a) | some v ↦ (v, []) ]
unfolding load8
load8_lem m a = ground (arith, read_byte_lem m a)
