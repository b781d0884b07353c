-- ===== src/Disasm/Blocks/Order.antt =====
-- The two sorts of build_block_table in src/disasm/disasm.cpp.
use Prim.Native.Nat.{ℕ, ◌≤◌, ◌<◌}
use mathlib.Core.List.Perm
use mathlib.Core.List.{Perm}
use risc_e.Base.{◌≢◌, arith, List, [], ◌∷◌, All, ltb, Bool-cases, inl, inr}
use risc_e.ICache.Profile.{ICacheStats}
use risc_e.Disasm.Blocks.{
  BlockStat, insert_entry, sort_entries, insert_stat, sort_stats, block_stats, build_block_table,
  entries_of,
}

-- Entries in strictly rising order.
abbrev pub Rises : List ℕ → Type 0
Rises [] = Unit
Rises (e ∷ es) = All (λ x. e < x) es × Rises es

abbrev pub Distinct : List ℕ → Type 0
Distinct [] = Unit
Distinct (e ∷ es) = All (λ x. e ≢ x) es × Distinct es

pub All-insert_entry {ℓ} :
    (P : ℕ → Type ℓ) (x : ℕ) (es : List ℕ) → P x → All P es → All P (insert_entry x es)
unfolding insert_entry
All-insert_entry P x [] p h = (p, tt)
All-insert_entry P x (y ∷ ys) p h = elim (Bool-cases (ltb y x)) [
  | inl below ↦ rw below (h.0, All-insert_entry P x ys p h.1)
  | inr above ↦ rw above (p, h)
]

pub All-sort_entries {ℓ} : (P : ℕ → Type ℓ) (es : List ℕ) → All P es → All P (sort_entries es)
unfolding sort_entries
All-sort_entries P [] h = tt
All-sort_entries P (x ∷ xs) h =
    All-insert_entry P x (sort_entries xs) h.0 (All-sort_entries P xs h.1)

All-above : (x y : ℕ) (ys : List ℕ) → x < y → All (λ z. y < z) ys → All (λ z. x < z) ys
All-above x y [] h a = tt
All-above x y (z ∷ zs) h a = (omega arith, All-above x y zs h a.1)

Rises-insert_entry :
    (x : ℕ) (es : List ℕ) → All (λ y. x ≢ y) es → Rises es → Rises (insert_entry x es)
unfolding insert_entry
Rises-insert_entry x [] d r = (tt, tt)
Rises-insert_entry x (y ∷ ys) d r = elim (Bool-cases (ltb y x)) [
  | inl below ↦
      rw below
        (All-insert_entry (λ z. y < z) x ys (ground arith) r.0, Rises-insert_entry x ys d.1 r.1)
  | inr above ↦ let lt : x < y = ground arith in rw above ((lt, All-above x y ys lt r.0), r)
]

pub sort_entries-Rises : (es : List ℕ) → Distinct es → Rises (sort_entries es)
unfolding sort_entries
sort_entries-Rises [] d = tt
sort_entries-Rises (x ∷ xs) d =
    Rises-insert_entry x (sort_entries xs) (All-sort_entries (λ y. x ≢ y) xs d.0)
      (sort_entries-Rises xs d.1)

-- The table in rising order of its entries.
abbrev pub IsSorted : List BlockStat → Type 0
IsSorted [] = Unit
IsSorted (b ∷ bs) = All (λ c. b.entry_pc ≤ c.entry_pc) bs × IsSorted bs

All-insert_stat {ℓ} :
    (P : BlockStat → Type ℓ) (x : BlockStat) (bs : List BlockStat)
    → P x
    → All P bs
    → All P (insert_stat x bs)
unfolding insert_stat
All-insert_stat P x [] p h = (p, tt)
All-insert_stat P x (y ∷ ys) p h = elim (Bool-cases (ltb y.entry_pc x.entry_pc)) [
  | inl below ↦ rw below (h.0, All-insert_stat P x ys p h.1)
  | inr above ↦ rw above (p, h)
]

All-from :
    (x y : ℕ) (bs : List BlockStat)
    → x ≤ y
    → All (λ c. y ≤ c.entry_pc) bs
    → All (λ c. x ≤ c.entry_pc) bs
All-from x y [] h a = tt
All-from x y (z ∷ zs) h a = (omega arith, All-from x y zs h a.1)

insert_stat-IsSorted :
    (x : BlockStat) (bs : List BlockStat) → IsSorted bs → IsSorted (insert_stat x bs)
unfolding insert_stat
insert_stat-IsSorted x [] s = (tt, tt)
insert_stat-IsSorted x (y ∷ ys) s = elim (Bool-cases (ltb y.entry_pc x.entry_pc)) [
  | inl below ↦ rw below (
    All-insert_stat (λ c. y.entry_pc ≤ c.entry_pc) x ys (ground arith) s.0,
    insert_stat-IsSorted x ys s.1,
  )
  | inr above ↦
      let le : x.entry_pc ≤ y.entry_pc = ground arith in
      rw above ((le, All-from x.entry_pc y.entry_pc ys le s.0), s)
]

sort_stats-IsSorted : (bs : List BlockStat) → IsSorted (sort_stats bs)
unfolding sort_stats
sort_stats-IsSorted [] = tt
sort_stats-IsSorted (b ∷ bs) = insert_stat-IsSorted b (sort_stats bs) (sort_stats-IsSorted bs)

insert_stat-perm : (x : BlockStat) (bs : List BlockStat) → Perm (insert_stat x bs) (x ∷ bs)
unfolding insert_stat
insert_stat-perm x [] = Perm.refl (x ∷ [])
insert_stat-perm x (y ∷ ys) = elim (Bool-cases (ltb y.entry_pc x.entry_pc)) [
  | inl below ↦ rw below (Perm.trans (Perm.cons y (insert_stat-perm x ys)) (Perm.swap x y ys))
  | inr above ↦ rw above (Perm.refl (x ∷ y ∷ ys))
]

sort_stats-perm : (bs : List BlockStat) → Perm (sort_stats bs) bs
unfolding sort_stats
sort_stats-perm [] = Perm.refl []
sort_stats-perm (b ∷ bs) =
    Perm.trans (insert_stat-perm b (sort_stats bs)) (Perm.cons b (sort_stats-perm bs))

-- The block table is in rising order of the entries, and holds the row of each block exactly once.
build_block_table-IsSorted :
    (s : ICacheStats)
    → IsSorted (build_block_table s)
      × Perm
          (build_block_table s)
          (block_stats (sort_entries (entries_of s.blocks)) s.seen_pcs s.blocks)
unfolding build_block_table
build_block_table-IsSorted s =
    let rows = block_stats (sort_entries (entries_of s.blocks)) s.seen_pcs s.blocks in
    (sort_stats-IsSorted rows, sort_stats-perm rows)
