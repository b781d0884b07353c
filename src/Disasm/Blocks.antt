-- ===== src/Disasm/Blocks.antt =====
-- build_block_table of src/disasm/disasm.cpp: the static size of each basic block, from the profile.
-- `std::sort` is an insertion sort and `std::upper_bound` a scan of the sorted range.
pub mod Order
pub mod Tiling
use risc_e.Base.{ℕ, suc, List, [], ◌∷◌, Option, none, some, Bool, ltb, leb, ◌&&◌, if◌then◌else◌}
use risc_e.ICache.Profile.{BlockInfo, ICacheStats}

pub record BlockStat : Type 0 where
  pub entry_pc : ℕ
  pub static_size : ℕ
  pub executions : ℕ
  pub dynamic_instructions : ℕ

-- The entries in the order of the blocks.
unfoldable pub entries_of : List BlockInfo → List ℕ
entries_of [] = []
entries_of (b ∷ bs) = b.entry_pc ∷ entries_of bs

unfoldable pub insert_entry : ℕ → List ℕ → List ℕ
insert_entry x [] = x ∷ []
insert_entry x (y ∷ ys) = if ltb y x then y ∷ insert_entry x ys else x ∷ y ∷ ys

unfoldable pub sort_entries : List ℕ → List ℕ
unfolding insert_entry
sort_entries [] = []
sort_entries (x ∷ xs) = insert_entry x (sort_entries xs)

unfoldable pub upper_bound : List ℕ → ℕ → Option ℕ
upper_bound [] x = none
upper_bound (y ∷ ys) x = if ltb x y then some y else upper_bound ys x

unfoldable pub block_limit : List ℕ → ℕ → ℕ
unfolding upper_bound
block_limit entries entry = elim (upper_bound entries entry) [
  | none ↦ 0xFFFFFFFF
  | some next ↦ next
]

-- The loop over `seen_pcs`.
unfoldable pub count_between : ℕ → ℕ → List ℕ → ℕ
count_between low limit [] = 0
count_between low limit (pc ∷ pcs) =
    let rest = count_between low limit pcs in if leb low pc && ltb pc limit then suc rest else rest

unfoldable pub block_stats : List ℕ → List ℕ → List BlockInfo → List BlockStat
unfolding block_limit count_between
block_stats entries seen [] = []
block_stats entries seen (b ∷ bs) =
    record {
      entry_pc = b.entry_pc;
      static_size = count_between b.entry_pc (block_limit entries b.entry_pc) seen;
      executions = b.executions;
      dynamic_instructions = b.instructions;
    }
    ∷ block_stats entries seen bs

unfoldable pub insert_stat : BlockStat → List BlockStat → List BlockStat
insert_stat x [] = x ∷ []
insert_stat x (y ∷ ys) = if ltb y.entry_pc x.entry_pc then y ∷ insert_stat x ys else x ∷ y ∷ ys

unfoldable pub sort_stats : List BlockStat → List BlockStat
unfolding insert_stat
sort_stats [] = []
sort_stats (x ∷ xs) = insert_stat x (sort_stats xs)

unfoldable pub build_block_table : ICacheStats → List BlockStat
unfolding sort_entries entries_of block_stats sort_stats
build_block_table stats =
    sort_stats (block_stats (sort_entries (entries_of stats.blocks)) stats.seen_pcs stats.blocks)
