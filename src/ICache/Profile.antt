-- ===== src/ICache/Profile.antt =====
-- The execution profile: src/component/icache/icache_stats.cpp and
-- include/risc-e/component/icache/icache_stats.hpp.
-- A hash map is a function of its key; the set of program counters is a list without repetition.
pub mod Interning
use risc_e.Base.{
  ℕ, ◌+◌, ◌-◌, ◌^◌, Bool, true, false, not, Option, none, some, List, [], ◌∷◌, ◌++◌, length, get_or,
  set, update, ltb, ◌==◌, ◌||◌, if◌then◌else◌,
}
use risc_e.Base.Word.{u32}

pub record BlockInfo : Type 0 where
  pub entry_pc : ℕ
  pub executions : ℕ
  pub instructions : ℕ

abbrev pub no_block : ℕ
no_block = 0xFFFFFFFF

abbrev pub max_entries : ℕ
max_entries = 100000

pub record ICacheStats : Type 0 where
  pub instructions : ℕ
  pub seen_pcs : List ℕ
  pub pc_to_id : ℕ → Option ℕ
  pub blocks : List BlockInfo
  pub entry_sequence : List ℕ

abbrev pub fresh : ICacheStats
fresh = record {
  instructions = 0;
  seen_pcs = [];
  pc_to_id = λ pc. none;
  blocks = [];
  entry_sequence = [];
}

unfoldable pub reset : ICacheStats → ICacheStats
reset s = fresh

pub contains : ℕ → List ℕ → Bool
contains pc [] = false
contains pc (q ∷ rest) = q == pc || contains pc rest

-- A block that is out of range does not occur: `block_at` and `bump` then change nothing.
abbrev pub block_at : List BlockInfo → ℕ → BlockInfo
block_at blocks id = get_or blocks id (record { entry_pc = 0; executions = 0; instructions = 0 })

-- The map and the blocks after the look-up of `entry_pc`, and its id.
unfoldable pub intern : ICacheStats → ℕ → ICacheStats × ℕ
intern s entry_pc = elim (s.pc_to_id entry_pc) [
  | none ↦
      let id = u32 (length s.blocks) in
      (
        record s {
          pc_to_id = update s.pc_to_id entry_pc (some id);
          blocks =
              s.blocks ++ record { entry_pc = entry_pc; executions = 0; instructions = 0 } ∷ [];
        },
        id,
      )
  | some id ↦ (s, id)
]

unfoldable pub record_block_entry : ICacheStats → ℕ → ICacheStats × ℕ
unfolding intern
record_block_entry s entry_pc =
    let (t, id) = intern s entry_pc in
    let block = block_at t.blocks id in
    (
      record t {
        blocks = set t.blocks id (record block { executions = block.executions + 1 });
        entry_sequence =
            if ltb (length t.entry_sequence) max_entries
            then t.entry_sequence ++ id ∷ []
            else t.entry_sequence;
      },
      id,
    )

unfoldable pub record_instruction : ICacheStats → ℕ → ICacheStats
unfolding contains
record_instruction s pc = record s {
  instructions = s.instructions + 1;
  seen_pcs = if contains pc s.seen_pcs then s.seen_pcs else pc ∷ s.seen_pcs;
}

unfoldable pub record_block_instruction : ICacheStats → ℕ → ICacheStats
record_block_instruction s block_id =
    let block = block_at s.blocks block_id in
    if not (block_id == no_block)
    then record s {
      blocks = set s.blocks block_id (record block { instructions = block.instructions + 1 });
    }
    else s
