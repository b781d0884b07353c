-- ===== src/Memory/Region.antt =====
-- map_region: which addresses it maps, and that it loses no byte.
use risc_e.Base.{
  ℕ, zero, suc, ◌+◌, ◌-◌, ◌/◌, ◌%◌, ◌^◌, ◌<◌, min, ◌≡◌, arith, Option, none, some, ◌&&◌, Bool,
  false, leb, ltb, ◌==◌, if◌then◌else◌, update, ◌∙◌, ap, Option-cases, inl, inr,
}
use risc_e.Memory.{PhysicalMemory, Page, zero_page, map_pages, map_region}
use risc_e.Memory.Pages.{byte_at}
use risc_e.Memory.Access.{IsBytes}

abbrev cell : (ℕ → Option Page) → ℕ → ℕ → Option ℕ
cell pages i offset = elim (pages i) [ none ↦ none | some page ↦ some (page offset) ]

abbrev pub or_zero : Option ℕ → Bool → Option ℕ
or_zero (some v) fresh = some v
or_zero none fresh = if fresh then some 0 else none

-- One round of the loop.
abbrev map_page : ℕ → (ℕ → Option Page) → ℕ → Option Page
map_page index pages = elim (pages index) [
  | none ↦ update pages index (some zero_page)
  | some page ↦ pages
]

map_page_lem :
    (index : ℕ) (pages : ℕ → Option Page) (i offset : ℕ)
    → cell (map_page index pages) i offset ≡ or_zero (cell pages i offset) (index == i)
unfolding zero_page
map_page_lem index pages i offset = elim (Option-cases (pages index)) [
  | inl e ↦ ground arith
  | inr (page, e) ↦ ground arith
]

-- The loop maps the pages from `index` on, and leaves a mapped page alone.
map_pages_lem :
    (left index : ℕ) (pages : ℕ → Option Page) (i offset : ℕ)
    → cell (map_pages left index pages) i offset
      ≡ or_zero (cell pages i offset) (leb index i && ltb i (index + left))
unfolding map_pages
map_pages_lem zero index pages i offset = ground arith
map_pages_lem (suc left) index pages i offset =
    map_pages_lem left (index + 1) (map_page index pages) i offset
    ∙ ground (arith, map_page_lem index pages i offset)

-- The pages that `map_region` touches, by their first and last byte.
abbrev pub covers : ℕ → ℕ → ℕ → Bool
covers addr size a =
    ltb 0 size
    && leb (addr / 2 ^ 12) (a / 2 ^ 12)
    && leb (a / 2 ^ 12) ((min (addr + size) (2 ^ 32) - 1) / 2 ^ 12)

map_region-suc :
    (m : PhysicalMemory) (addr n : ℕ)
    → map_region m addr (suc n) ≡ record m {
      pages =
          map_pages
            ((min (addr + suc n) (2 ^ 32) - 1) / 2 ^ 12 + 1 - addr / 2 ^ 12)
            (addr / 2 ^ 12)
            m.pages;
    }
unfolding map_region
map_region-suc m addr n = rw (nonzero, map_region)
  where
    nonzero : (suc n == 0) ≡ false
    nonzero = ground arith

-- After map_region every byte of a page that the region touches is mapped: a byte that was mapped
-- keeps its value, a new one is zero, and no other address changes.
pub byte_at-map_region :
    (m : PhysicalMemory) (addr size a : ℕ)
    → addr < 2 ^ 32
    → byte_at (map_region m addr size) a ≡ or_zero (byte_at m a) (covers addr size a)
unfolding byte_at map_region
byte_at-map_region m addr zero a bound = ground arith
byte_at-map_region m addr (suc n) a bound =
    ap (λ r. byte_at r a) (map_region-suc m addr n)
    ∙ map_pages_lem ((min (addr + suc n) (2 ^ 32) - 1) / 2 ^ 12 + 1 - addr / 2 ^ 12) (addr / 2 ^ 12)
        m.pages (a / 2 ^ 12) (a % 2 ^ 12)
    ∙ ap (or_zero (byte_at m a)) (ground arith)

pub map_region-IsBytes :
    (m : PhysicalMemory) (addr size : ℕ)
    → addr < 2 ^ 32
    → IsBytes m
    → IsBytes (map_region m addr size)
map_region-IsBytes m addr size bound bytes a v e =
    ground (arith, byte_at-map_region m addr size a bound, bytes a v)
