-- ===== src/DCache/Hierarchy.antt =====
-- The two-level data cache: simulate_hierarchy of
-- src/component/dcache/implementations/l1l2_cache.cpp.
use risc_e.Base.{ℕ, ◌+◌, ◌*◌, ◌≡◌, arith, Option, none, some}
use risc_e.Base.Word.{u64, add64}
use risc_e.DCache.Trace
use risc_e.DCache.Trace.{DCacheStats}
use risc_e.DCache.Cache.{DCacheConfig, DCacheResult, simulate_dcache}
use risc_e.DCache.Cache.Tally.{simulate_dcache-IsAccounted}

pub record HierarchyResult : Type 0 where
  pub l1 : DCacheResult
  pub l2 : DCacheResult
  pub total_cycles : ℕ
  pub baseline_cycles : ℕ

abbrev pub forwarded : Option DCacheStats → DCacheStats
forwarded none = Trace.fresh
forwarded (some stream) = stream

unfoldable pub simulate_hierarchy : DCacheConfig → DCacheConfig → DCacheStats → HierarchyResult
simulate_hierarchy l1 l2 trace =
    let first = simulate_dcache (record l1 { miss_penalty = 0 }) trace (some Trace.fresh) in
    let second = simulate_dcache l2 (forwarded first.1) none in
    let baseline = simulate_dcache (record l1 { miss_penalty = l2.miss_penalty }) trace none in
    record {
      l1 = first.0;
      l2 = second.0;
      total_cycles = add64 first.0.total_cycles second.0.total_cycles;
      baseline_cycles = baseline.0.total_cycles;
    }

-- In the hierarchy the first level costs its hits alone, modulo 2 ^ 64: every refill, drain and
-- write-back that it forwards is paid for by the second level.
simulate_hierarchy_total :
    (l1 l2 : DCacheConfig) (trace : DCacheStats)
    → let h = simulate_hierarchy l1 l2 trace in
      h.total_cycles ≡ u64 (h.l1.hits * l1.hit_latency + h.l2.total_cycles)
unfolding simulate_hierarchy
simulate_hierarchy_total l1 l2 trace =
    let chain = record l1 { miss_penalty = 0 } in
    omega (arith, (simulate_dcache-IsAccounted chain trace (some Trace.fresh)).9)
