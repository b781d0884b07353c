-- ===== src/DCache/Tests.antt =====
-- Witnesses for the theorems on the data cache: a store, and a load that evicts its line from the one
-- set of two ways.
use risc_e.Base.{ℕ, zero, suc, ◌≤◌, ◌<◌, ◌≢◌, refl, arith, none, [], ◌∷◌, get_or}
use risc_e.DCache.Trace.{DCacheKind, DCacheStats}
use risc_e.DCache.Replacement.{ReplacementPolicy, ReplacementState, touch, victim}
use risc_e.DCache.Replacement.Victims.{IsTimed, victim-touch}
use risc_e.DCache.Cache.{DCacheConfig, WritePolicy, WriteAllocate, simulate_dcache}
use risc_e.DCache.Cache.Tally.{IsAccounted, simulate_dcache-IsAccounted}

abbrev small : DCacheConfig
small = record {
  hit_latency = 1;
  miss_penalty = 100;
  line_size = 16;
  sets = 1;
  ways = 2;
  write_buffer_depth = 4;
  policy = ReplacementPolicy.lru;
  write_policy = WritePolicy.write_back;
  allocation = WriteAllocate.write_allocate;
}

abbrev accesses : DCacheStats
accesses = record {
  loads = 2;
  stores = 1;
  records =
      record { addr = 0x10; size = 4; kind = DCacheKind.store }
      ∷ record { addr = 0x20; size = 4; kind = DCacheKind.load }
      ∷ record { addr = 0x30; size = 1; kind = DCacheKind.load }
      ∷ [];
}

simulate_dcache-IsAccounted_example : IsAccounted small (simulate_dcache small accesses none).0
simulate_dcache-IsAccounted_example = simulate_dcache-IsAccounted small accesses none

abbrev recency : ReplacementState
recency = record { policy = ReplacementPolicy.lru; ways = 2; lru = 3 ∷ 5 ∷ []; plru = []; tick = 5 }

recency-IsTimed : IsTimed recency
recency-IsTimed = record { timed = refl; size = refl; past = past }
  where
    past : (w : ℕ) → get_or (3 ∷ 5 ∷ []) w 0 ≤ 5
    past zero = omega arith
    past (suc zero) = omega arith
    past (suc (suc w)) = omega arith

victim-touch_example :
    let t = touch recency 0 in
    (victim t ≢ 0) × ((j : ℕ) → j < 2 → get_or t.lru (victim t) 0 ≤ get_or t.lru j 0)
victim-touch_example = victim-touch recency 0 recency-IsTimed (omega arith) (omega arith)
