-- ===== src/Disasm/Blocks/Tiling.antt =====
-- The static sizes of build_block_table in src/disasm/disasm.cpp cover the executed instructions.
use risc_e.Base.{
  ℕ, ◌+◌, ◌≤◌, ◌<◌, ◌≡◌, ◌⊎◌, refl, sym, ap, ◌∙◌, arith, List, [], ◌∷◌, All, length, inl, inr,
}
use risc_e.ICache.Profile.{BlockInfo, ICacheStats}
use risc_e.Disasm.Blocks.{
  BlockStat, entries_of, insert_entry, sort_entries, upper_bound, block_limit, count_between,
  block_stats, insert_stat, sort_stats, build_block_table,
}
use risc_e.Disasm.Blocks.Order.{Rises, Distinct, sort_entries-Rises, All-sort_entries}

abbrev pub total_size : List BlockStat → ℕ
total_size [] = 0
total_size (b ∷ bs) = b.static_size + total_size bs

-- The sizes of the blocks that start at `es`, with limits from `all`.
sizes : List ℕ → List ℕ → List ℕ → ℕ
sizes all seen [] = 0
sizes all seen (e ∷ es) = count_between e (block_limit all e) seen + sizes all seen es

total_size-insert_stat :
    (b : BlockStat) (bs : List BlockStat)
    → total_size (insert_stat b bs) ≡ b.static_size + total_size bs
unfolding insert_stat
total_size-insert_stat b [] = omega arith
total_size-insert_stat b (c ∷ cs) = ground (arith, total_size-insert_stat b cs)

total_size-sort_stats : (bs : List BlockStat) → total_size (sort_stats bs) ≡ total_size bs
unfolding sort_stats
total_size-sort_stats [] = refl
total_size-sort_stats (b ∷ bs) =
    omega (arith, total_size-insert_stat b (sort_stats bs), total_size-sort_stats bs)

total_size-block_stats :
    (all seen : List ℕ) (bs : List BlockInfo)
    → total_size (block_stats all seen bs) ≡ sizes all seen (entries_of bs)
unfolding block_stats sizes entries_of
total_size-block_stats all seen [] = refl
total_size-block_stats all seen (b ∷ bs) =
    ap (λ n. count_between b.entry_pc (block_limit all b.entry_pc) seen + n)
      (total_size-block_stats all seen bs)

sizes-insert_entry :
    (all seen : List ℕ) (e : ℕ) (es : List ℕ)
    → sizes all seen (insert_entry e es)
      ≡ count_between e (block_limit all e) seen + sizes all seen es
unfolding sizes insert_entry
sizes-insert_entry all seen e [] = refl
sizes-insert_entry all seen e (f ∷ fs) = ground (arith, sizes-insert_entry all seen e fs)

sizes-sort_entries : (all seen es : List ℕ) → sizes all seen (sort_entries es) ≡ sizes all seen es
unfolding sizes sort_entries
sizes-sort_entries all seen [] = refl
sizes-sort_entries all seen (e ∷ es) =
    omega (arith, sizes-insert_entry all seen e (sort_entries es), sizes-sort_entries all seen es)

-- A lower entry in front changes no limit of the entries above it.
sizes-skip :
    (e : ℕ) (all seen es : List ℕ)
    → All (λ x. e < x) es
    → sizes (e ∷ all) seen es ≡ sizes all seen es
unfolding sizes block_limit upper_bound
sizes-skip e all seen [] h = refl
sizes-skip e all seen (f ∷ fs) h = ground (arith, sizes-skip e all seen fs h.1)

-- Neighbouring ranges add up.
count_between-add :
    (a b c : ℕ) (seen : List ℕ)
    → a ≤ b
    → b ≤ c
    → count_between a b seen + count_between b c seen ≡ count_between a c seen
unfolding count_between
count_between-add a b c [] h k = omega arith
count_between-add a b c (pc ∷ pcs) h k = ground (arith, count_between-add a b c pcs h k)

abbrev top : ℕ
top = 0xFFFFFFFF

block_limit-next : (e f : ℕ) (fs : List ℕ) → e < f → block_limit (e ∷ f ∷ fs) e ≡ f
unfolding block_limit
block_limit-next e f fs h = ground arith

block_limit-last : (e : ℕ) → block_limit (e ∷ []) e ≡ top
unfolding block_limit
block_limit-last e = ground arith

sizes-Rises :
    (seen : List ℕ) (e : ℕ) (es : List ℕ)
    → Rises (e ∷ es)
    → All (λ x. x ≤ top) (e ∷ es)
    → sizes (e ∷ es) seen (e ∷ es) ≡ count_between e top seen
unfolding sizes
sizes-Rises seen e [] r b = rw (block_limit-last e) (omega arith)
sizes-Rises seen e (f ∷ fs) r b = rw (block_limit-next e f fs r.0.0) (
    ap (λ n. count_between e f seen + n)
      (sizes-skip e (f ∷ fs) seen (f ∷ fs) r.0 ∙ sizes-Rises seen f fs r.1 b.1)
    ∙ count_between-add e f top seen (omega arith) b.1.0)

count_between-All :
    (low : ℕ) (seen : List ℕ)
    → All (λ pc. (low ≤ pc) × (pc < top)) seen
    → count_between low top seen ≡ length seen
unfolding count_between
count_between-All low [] h = refl
count_between-All low (pc ∷ pcs) h = ground (arith, count_between-All low pcs h.1)

-- What every executed instruction lies above: some entry of a block.
abbrev pub IsReached : List ℕ → ℕ → Type 0
IsReached [] pc = ⊥
IsReached (e ∷ es) pc = (e ≤ pc) ⊎ IsReached es pc

reached_above : (low pc : ℕ) (es : List ℕ) → IsReached es pc → All (λ x. low ≤ x) es → low ≤ pc
reached_above low pc [] h a = absurd h
reached_above low pc (e ∷ es) (inl h) a = omega arith
reached_above low pc (e ∷ es) (inr h) a = reached_above low pc es h a.1

IsReached-insert_entry :
    (x pc : ℕ) (es : List ℕ) → IsReached (x ∷ es) pc → IsReached (insert_entry x es) pc
unfolding insert_entry
IsReached-insert_entry x pc [] h = h
IsReached-insert_entry x pc (y ∷ ys) h = ground (arith, IsReached-insert_entry x pc ys)

IsReached-sort_entries : (pc : ℕ) (es : List ℕ) → IsReached es pc → IsReached (sort_entries es) pc
unfolding sort_entries
IsReached-sort_entries pc [] h = h
IsReached-sort_entries pc (e ∷ es) (inl h) = IsReached-insert_entry e pc (sort_entries es) (inl h)
IsReached-sort_entries pc (e ∷ es) (inr h) =
    IsReached-insert_entry e pc (sort_entries es) (inr (IsReached-sort_entries pc es h))

-- Each program counter lies in some block, below the limit of the last one.
abbrev pub IsCovered : List ℕ → List ℕ → Type 0
IsCovered es = All (λ pc. IsReached es pc × (pc < top))

IsCovered-sort_entries : (es seen : List ℕ) → IsCovered es seen → IsCovered (sort_entries es) seen
IsCovered-sort_entries es [] h = tt
IsCovered-sort_entries es (pc ∷ pcs) h =
    ((IsReached-sort_entries pc es h.0.0, h.0.1), IsCovered-sort_entries es pcs h.1)

above_lowest :
    (e : ℕ) (es seen : List ℕ)
    → Rises (e ∷ es)
    → IsCovered (e ∷ es) seen
    → All (λ pc. (e ≤ pc) × (pc < top)) seen
above_lowest e es [] r h = tt
above_lowest e es (pc ∷ pcs) r h = ((above h.0.0, h.0.1), above_lowest e es pcs r h.1)
  where
    above : IsReached (e ∷ es) pc → e ≤ pc
    above reached = reached_above e pc (e ∷ es) reached (omega arith, at_most es r.0)
      where
        at_most : (fs : List ℕ) → All (λ x. e < x) fs → All (λ x. e ≤ x) fs
        at_most [] a = tt
        at_most (f ∷ fs) a = (omega arith, at_most fs a.1)

sizes_cover :
    (seen es : List ℕ)
    → Rises es
    → All (λ x. x ≤ top) es
    → IsCovered es seen
    → sizes es seen es ≡ length seen
unfolding sizes
sizes_cover [] [] r b h = refl
sizes_cover (pc ∷ pcs) [] r b h = absurd h.0.0
sizes_cover seen (e ∷ es) r b h =
    sizes-Rises seen e es r b ∙ count_between-All e seen (above_lowest e es seen r h)

-- The static sizes of the block table add up to the number of distinct instructions executed, so
-- each of these is in exactly one block: when no two blocks start at the same address, and every
-- executed instruction is at or behind the start of some block and below 0xFFFFFFFF.
pub total_size-build_block_table :
    (s : ICacheStats)
    → Distinct (entries_of s.blocks)
    → All (λ x. x ≤ top) (entries_of s.blocks)
    → IsCovered (entries_of s.blocks) s.seen_pcs
    → total_size (build_block_table s) ≡ length s.seen_pcs
unfolding build_block_table
total_size-build_block_table s distinct bound covered =
    let es = entries_of s.blocks in
    let all = sort_entries es in
    total_size-sort_stats (block_stats all s.seen_pcs s.blocks)
    ∙ (total_size-block_stats all s.seen_pcs s.blocks
        ∙ (sym (sizes-sort_entries all s.seen_pcs es)
            ∙ sizes_cover s.seen_pcs all (sort_entries-Rises es distinct)
                (All-sort_entries (λ x. x ≤ top) es bound)
                (IsCovered-sort_entries es s.seen_pcs covered)))
