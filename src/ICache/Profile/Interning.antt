-- ===== src/ICache/Profile/Interning.antt =====
-- The numbering of basic blocks by record_block_entry: src/component/icache/icache_stats.cpp.
use risc_e.Base.{ℕ, ◌<◌, ◌≡◌, some, length}
use risc_e.ICache.Profile.{BlockInfo, ICacheStats, block_at}

-- Every number that the map holds is the position of the block that starts at its key.
abbrev pub IsInterned : ICacheStats → Type 0
IsInterned s =
    (pc id : ℕ)
    → s.pc_to_id pc ≡ some id
    → (id < length s.blocks) × ((block_at s.blocks id).entry_pc ≡ pc)

abbrev new_block : ℕ → BlockInfo
new_block pc = record { entry_pc = pc; executions = 0; instructions = 0 }
