-- ===== src/ICache/Tests.antt =====
-- Witnesses for the theorems on the instruction-cache profile.
use risc_e.Base.{arith, true, [], ◌∷◌}
use risc_e.ICache.Cache.{ICacheConfig, Replacement, simulate_icache, enter_all, start}
use risc_e.ICache.Cache.Counts.{IsAccounted, simulate_icache-IsAccounted}
use risc_e.ICache.Cache.Occupancy.{IsWithin, enter_all-IsWithin}
use risc_e.ICache.Profile.{ICacheStats, fresh}

abbrev direct_mapped : ICacheConfig
direct_mapped = record {
  miss_penalty = 50;
  line_size = 16;
  sets = 2;
  ways = 1;
  policy = Replacement.lru;
  prefetch = true;
}

abbrev two_blocks : ICacheStats
two_blocks = record fresh {
  instructions = 12;
  blocks =
      record { entry_pc = 0x1000; executions = 2; instructions = 8 }
      ∷ record { entry_pc = 0x1020; executions = 1; instructions = 4 }
      ∷ [];
  entry_sequence = 0 ∷ 1 ∷ 0 ∷ [];
}

simulate_icache-IsAccounted_example :
    IsAccounted direct_mapped 3 (simulate_icache direct_mapped two_blocks)
simulate_icache-IsAccounted_example =
    simulate_icache-IsAccounted direct_mapped two_blocks (omega arith) (omega arith) (omega arith)

enter_all-IsWithin_example :
    IsWithin direct_mapped
      (enter_all direct_mapped two_blocks.blocks
        (start direct_mapped two_blocks)
        (0 ∷ 1 ∷ 0 ∷ [])).cache
enter_all-IsWithin_example =
    enter_all-IsWithin direct_mapped (omega arith) two_blocks.blocks
      (start direct_mapped two_blocks) (0 ∷ 1 ∷ 0 ∷ []) (λ index. unfold start in omega arith)
