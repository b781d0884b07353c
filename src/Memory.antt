-- ===== src/Memory.antt =====
-- Paged physical memory: src/memory/physical_memory.cpp and
-- include/risc-e/memory/physical_memory.hpp.
-- A null page pointer is `none`. A call of the trap sink is a value: each operation returns the
-- list of the calls that it makes, in order, and the interpreter carries them out.
pub mod Pages
pub mod Region
pub mod Access
pub mod Words
pub mod Stores
pub mod Faults
pub mod Ranges
pub mod Tests
use Prim.Native.Nat.{bit_and, bit_or}
use risc_e.Base.{
  ℕ, zero, suc, ◌+◌, ◌-◌, ◌*◌, ◌^◌, min, Bool, true, false, Option, none, some, List, [], ◌∷◌, ◌++◌,
  ltb, ◌==◌, if◌then◌else◌, update,
}
use risc_e.Base.Word.{u8, ◌<<<◌, ◌>>>◌, add32}
use risc_e.Cpu.Trap.{TrapCause, Trap}

abbrev pub page_shift : ℕ
page_shift = 12

abbrev pub page_mask : ℕ
page_mask = 4095

abbrev pub Page : Type 0
Page = ℕ → ℕ

pub record PhysicalMemory : Type 0 where
  pub pages : ℕ → Option Page
  pub has_sink : Bool

pub zero_page : Page
zero_page offset = 0

-- PhysicalMemory(), with no trap sink yet.
unfoldable pub empty : PhysicalMemory
empty = record { pages = λ index. none; has_sink = false }

unfoldable pub set_trap_sink : PhysicalMemory → PhysicalMemory
set_trap_sink m = record m { has_sink = true }

-- What a fallible member returns: its value, or `false` after the listed calls of the sink.
pub data Attempt {ℓ} (A : Type ℓ) : Type ℓ where
  done : A → Attempt A
  failed : List Trap → Attempt A

infixl 5 ◌>>=◌ ◌>>◌
abbrev pub ◌>>=◌ {ℓ κ} : {A : Type ℓ} {B : Type κ} → Attempt A → (A → Attempt B) → Attempt B
done a >>= f = f a
failed ts >>= f = failed ts

abbrev pub ◌>>◌ {ℓ} : {B : Type ℓ} → Attempt (Unit {0}) → Attempt B → Attempt B
m >> k = m >>= λ _. k

unfoldable pub get_page_ptr : PhysicalMemory → ℕ → Option Page
get_page_ptr m addr = m.pages (addr >>> page_shift)

unfoldable pub raise_fault : PhysicalMemory → TrapCause → ℕ → List Trap
raise_fault m cause addr = if m.has_sink then record { cause = cause; value = addr } ∷ [] else []

-- `for (page_idx = first; page_idx <= last; ++page_idx)`, by the rounds that are left.
pub map_pages : ℕ → ℕ → (ℕ → Option Page) → ℕ → Option Page
unfolding zero_page
map_pages zero index pages = pages
map_pages (suc left) index pages =
    map_pages left (index + 1)
      (elim (pages index) [ none ↦ update pages index (some zero_page) | some page ↦ pages ])

pub map_region : PhysicalMemory → ℕ → ℕ → PhysicalMemory
map_region m addr size =
    if size == 0
    then m
    else let end = min (addr + size) (2 ^ 32) in
      let first = addr >>> page_shift in
      let last = (end - 1) >>> page_shift in
      record m { pages = map_pages (last + 1 - first) first m.pages }

unfoldable pub check_alignment : PhysicalMemory → ℕ → ℕ → TrapCause → Attempt (Unit {0})
unfolding raise_fault
check_alignment m addr size cause =
    if bit_and addr (size - 1) == 0 then done tt else failed (raise_fault m cause addr)

unfoldable pub check_range : PhysicalMemory → ℕ → ℕ → TrapCause → Attempt (Unit {0})
unfolding raise_fault
check_range m addr size cause =
    if ltb (2 ^ 32 - 1 - (size - 1)) addr then failed (raise_fault m cause addr) else done tt

-- The loop from byte `i`, with `left` bytes to check.
pub check_mapped_from : PhysicalMemory → ℕ → TrapCause → ℕ → ℕ → Attempt (Unit {0})
unfolding raise_fault get_page_ptr
check_mapped_from m addr cause zero i = done tt
check_mapped_from m addr cause (suc left) i = elim (get_page_ptr m (add32 addr i)) [
  | none ↦ failed (raise_fault m cause (add32 addr i))
  | some page ↦ check_mapped_from m addr cause left (i + 1)
]

pub check_mapped : PhysicalMemory → ℕ → ℕ → TrapCause → Attempt (Unit {0})
unfolding check_mapped_from
check_mapped m addr size cause = check_mapped_from m addr cause size 0

pub read_byte : PhysicalMemory → ℕ → Attempt ℕ
unfolding raise_fault get_page_ptr
read_byte m addr = elim (get_page_ptr m addr) [
  | none ↦ failed (raise_fault m TrapCause.load_fault addr)
  | some page ↦ done (page (bit_and addr page_mask))
]

-- A store returns the memory and the calls of the sink.
pub write_byte : PhysicalMemory → ℕ → ℕ → PhysicalMemory × List Trap
unfolding raise_fault get_page_ptr
write_byte m addr value = elim (get_page_ptr m addr) [
  | none ↦ (m, raise_fault m TrapCause.store_fault addr)
  | some page ↦ (
    record m {
      pages =
          update m.pages (addr >>> page_shift) (some (update page (bit_and addr page_mask) value));
    },
    [],
  )
]

-- A load that fails returns 0.
abbrev pub loaded : Attempt ℕ → ℕ × List Trap
loaded (done value) = (value, [])
loaded (failed ts) = (0, ts)

pub load8 : PhysicalMemory → ℕ → ℕ × List Trap
unfolding read_byte
load8 m addr = loaded (read_byte m addr)

pub store8 : PhysicalMemory → ℕ → ℕ → PhysicalMemory × List Trap
unfolding write_byte
store8 m addr value = write_byte m addr value

pub load16 : PhysicalMemory → ℕ → ℕ × List Trap
unfolding check_alignment check_range read_byte
load16 m addr = loaded (do
  check_alignment m addr 2 TrapCause.load_misaligned
  check_range m addr 2 TrapCause.load_fault
  b0 ← read_byte m addr
  b1 ← read_byte m (add32 addr 1)
  done (bit_or b0 (b1 <<< 8)))

pub load32 : PhysicalMemory → ℕ → ℕ × List Trap
unfolding check_alignment check_range read_byte
load32 m addr = loaded (do
  check_alignment m addr 4 TrapCause.load_misaligned
  check_range m addr 4 TrapCause.load_fault
  b0 ← read_byte m addr
  b1 ← read_byte m (add32 addr 1)
  b2 ← read_byte m (add32 addr 2)
  b3 ← read_byte m (add32 addr 3)
  done (bit_or (bit_or (bit_or b0 (b1 <<< 8)) (b2 <<< 16)) (b3 <<< 24)))

-- One store after another; the calls of the sink are in their order.
infixl 5 ◌and_then◌
abbrev pub ◌and_then◌ :
    PhysicalMemory × List Trap
    → (PhysicalMemory → PhysicalMemory × List Trap)
    → PhysicalMemory × List Trap
◌and_then◌ (m, ts) store = ((store m).0, ts ++ (store m).1)

abbrev pub stored :
    PhysicalMemory → Attempt (PhysicalMemory × List Trap) → PhysicalMemory × List Trap
stored m (done r) = r
stored m (failed ts) = (m, ts)

pub store16 : PhysicalMemory → ℕ → ℕ → PhysicalMemory × List Trap
store16 m addr value = stored m (do
  check_alignment m addr 2 TrapCause.store_misaligned
  check_range m addr 2 TrapCause.store_fault
  check_mapped m addr 2 TrapCause.store_fault
  done (
      write_byte m addr (bit_and value 0xFF) and_then λ m1.
      write_byte m1 (add32 addr 1) (bit_and (value >>> 8) 0xFF)))

pub store32 : PhysicalMemory → ℕ → ℕ → PhysicalMemory × List Trap
store32 m addr value = stored m (do
  check_alignment m addr 4 TrapCause.store_misaligned
  check_range m addr 4 TrapCause.store_fault
  check_mapped m addr 4 TrapCause.store_fault
  done (
      write_byte m addr (bit_and value 0xFF)
      and_then (λ m1. write_byte m1 (add32 addr 1) (bit_and (value >>> 8) 0xFF))
      and_then (λ m2. write_byte m2 (add32 addr 2) (bit_and (value >>> 16) 0xFF))
      and_then (λ m3. write_byte m3 (add32 addr 3) (bit_and (value >>> 24) 0xFF))))

-- The loop of fetch32 from byte `i`, with `result` so far.
unfoldable pub fetch_bytes : PhysicalMemory → ℕ → ℕ → ℕ → ℕ → Attempt ℕ
unfolding raise_fault get_page_ptr
fetch_bytes m addr zero i result = done result
fetch_bytes m addr (suc left) i result = elim (get_page_ptr m (add32 addr i)) [
  | none ↦ failed (raise_fault m TrapCause.instruction_access_fault (add32 addr i))
  | some page ↦
      fetch_bytes m addr left (i + 1)
        (bit_or result (page (bit_and (add32 addr i) page_mask) <<< (8 * i)))
]

unfoldable pub fetch32 : PhysicalMemory → ℕ → ℕ × List Trap
unfolding check_alignment check_range fetch_bytes
fetch32 m addr = loaded (do
  check_alignment m addr 4 TrapCause.instruction_address_misaligned
  check_range m addr 4 TrapCause.instruction_access_fault
  fetch_bytes m addr 4 0 0)
