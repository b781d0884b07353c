-- ===== src/ICache/Cache.antt =====
-- The instruction-cache simulation: simulate_icache of src/component/icache/icache.cpp and
-- include/risc-e/component/icache/icache.hpp.
-- The vector of sets is a function of the index. A loop over the lines of a block has as many rounds
-- as lines. Of the results the floating-point ratios are left out.
pub mod Counts
pub mod Occupancy
use risc_e.Base.{
  ℕ, zero, suc, ◌+◌, ◌-◌, ◌*◌, ◌/◌, ◌%◌, ◌^◌, Bool, true, false, not, List, [], ◌∷◌, ◌++◌, length,
  get_or, set, replicate, update, ltb, ◌==◌, ◌&&◌, ◌||◌, if◌then◌else◌,
}
use risc_e.Base.Int.{ℤ, signed64}
use risc_e.Base.Word.{u64, add64, mul64, sub64, ◌>>>◌}
use risc_e.ICache.Profile.{ICacheStats, BlockInfo, block_at}
use risc_e.DCache.Replacement.{touch_path, victim_path}

pub data Replacement : Type 0 where
  lru plru : Replacement

pub record ICacheConfig : Type 0 where
  pub miss_penalty : ℕ
  pub line_size : ℕ
  pub sets : ℕ
  pub ways : ℕ
  pub policy : Replacement
  pub prefetch : Bool

pub record ICacheResult : Type 0 where
  pub entries : ℕ
  pub hits : ℕ
  pub misses : ℕ
  pub compulsory_misses : ℕ
  pub conflict_misses : ℕ
  pub capacity_misses : ℕ
  pub evictions : ℕ
  pub prefetches : ℕ
  pub miss_stalls : ℕ
  pub total_cycles : ℕ
  pub baseline_cycles : ℕ
  pub saved_cycles : ℤ

abbrev pub empty_result : ICacheResult
empty_result = record {
  entries = 0;
  hits = 0;
  misses = 0;
  compulsory_misses = 0;
  conflict_misses = 0;
  capacity_misses = 0;
  evictions = 0;
  prefetches = 0;
  miss_stalls = 0;
  total_cycles = 0;
  baseline_cycles = 0;
  saved_cycles = ℤ.pos 0;
}

pub record Way : Type 0 where
  pub tag : ℕ
  pub last_use : ℕ

pub record CacheSet : Type 0 where
  pub ways : List Way
  pub plru : List ℕ

pub record Simulation : Type 0 where
  pub result : ICacheResult
  pub cache : ℕ → CacheSet
  pub block_seen : List Bool
  pub tick : ℕ

abbrev pub is_plru : Replacement → Bool
is_plru Replacement.lru = false
is_plru Replacement.plru = true

-- touch_plru and victim_plru.
unfoldable pub touch_plru : List ℕ → ℕ → ℕ → List ℕ
touch_plru bits ways way = touch_path ways bits way 1 (ways >>> 1)

unfoldable pub victim_plru : List ℕ → ℕ → ℕ
victim_plru bits ways = victim_path ways bits ways 1

unfoldable pub holds : List Way → ℕ → Bool
holds [] tag = false
holds (w ∷ rest) tag = w.tag == tag || holds rest tag

-- The position of the first way with the tag.
unfoldable pub position : List Way → ℕ → ℕ
position [] tag = 0
position (w ∷ rest) tag = if w.tag == tag then 0 else suc (position rest tag)

unfoldable pub erase : List Way → ℕ → List Way
erase [] i = []
erase (w ∷ rest) zero = rest
erase (w ∷ rest) (suc i) = w ∷ erase rest i

abbrev pub no_way : Way
no_way = record { tag = 0; last_use = 0 }

-- The scan for the least recent use from way `i`, with `left` ways to go and the best so far.
unfoldable pub oldest : List Way → ℕ → ℕ → ℕ → ℕ
oldest ways zero i best = best
oldest ways (suc left) i best =
    oldest ways left (i + 1)
      (if ltb (get_or ways i no_way).last_use (get_or ways best no_way).last_use then i else best)

module _ (cfg : ICacheConfig) where
  unfoldable pub resident : Simulation → ℕ → Bool
  resident s line = holds (s.cache (line % cfg.sets)).ways (line / cfg.sets)

  unfoldable pub touch : Simulation → ℕ → Simulation
  touch s line =
      let index = line % cfg.sets in
      let tag = line / cfg.sets in
      let here = s.cache index in
      let i = position here.ways tag in
      if not (holds here.ways tag)
      then s
      else if is_plru cfg.policy
      then record s {
        cache = update s.cache index (record here { plru = touch_plru here.plru cfg.ways i });
      }
      else record s {
        cache = update s.cache index (record here {
          ways = set here.ways i (record (get_or here.ways i no_way) { last_use = s.tick });
        });
      }

  unfoldable pub evict_one : CacheSet → CacheSet
  evict_one here =
      let victim =
        if is_plru cfg.policy
        then victim_plru here.plru cfg.ways
        else oldest here.ways (length here.ways - 1) 1 0 in
      record here { ways = erase here.ways victim }

  unfoldable pub push_line : CacheSet → ℕ → ℕ → CacheSet
  push_line here tag tick =
      let ways = here.ways ++ record { tag = tag; last_use = tick } ∷ [] in
      if is_plru cfg.policy
      then record { ways = ways; plru = touch_plru here.plru cfg.ways (length ways - 1) }
      else record here { ways = ways }

  abbrev pub count_prefetch : Bool → ICacheResult → ICacheResult
  count_prefetch is_prefetch r =
      if is_prefetch then record r { prefetches = r.prefetches + 1 } else r

  unfoldable pub refill : Simulation → ℕ → Bool → Simulation
  refill s line is_prefetch =
      let index = line % cfg.sets in
      let tag = line / cfg.sets in
      let here = s.cache index in
      if holds here.ways tag
      then s
      else if length here.ways == cfg.ways
      then record s {
        cache = update s.cache index (push_line (evict_one here) tag s.tick);
        result =
            count_prefetch is_prefetch (record (s.result) { evictions = s.result.evictions + 1 });
      }
      else record s {
        cache = update s.cache index (push_line here tag s.tick);
        result = count_prefetch is_prefetch s.result;
      }

  -- The loops over the `left` lines from `line` on.
  unfoldable pub all_resident : Simulation → ℕ → ℕ → Bool
  all_resident s zero line = true
  all_resident s (suc left) line = resident s line && all_resident s left (line + 1)

  unfoldable pub touch_lines : Simulation → ℕ → ℕ → Simulation
  touch_lines s zero line = s
  touch_lines s (suc left) line = touch_lines (touch s line) left (line + 1)

  unfoldable pub refill_missing : Simulation → ℕ → Simulation
  refill_missing s line = if not (resident s line) then refill s line false else s

  unfoldable pub refill_lines : Simulation → ℕ → ℕ → Simulation
  refill_lines s zero line = s
  refill_lines s (suc left) line = refill_lines (refill_missing s line) left (line + 1)

  unfoldable pub count_hit : Simulation → Simulation
  count_hit s = record s { result = record (s.result) { hits = s.result.hits + 1 } }

  unfoldable pub count_miss : Simulation → ℕ → Simulation
  count_miss s id =
      let r = record (s.result) { misses = s.result.misses + 1 } in
      if not (get_or s.block_seen id false)
      then record s {
        block_seen = set s.block_seen id true;
        result = record r { compulsory_misses = r.compulsory_misses + 1 };
      }
      else if ltb 1 cfg.sets
      then record s { result = record r { conflict_misses = r.conflict_misses + 1 } }
      else record s { result = record r { capacity_misses = r.capacity_misses + 1 } }

  unfoldable pub first_line : BlockInfo → ℕ
  first_line b = b.entry_pc / cfg.line_size

  -- `entry_pc + per_exec * 4 - 1` on 64 bits.
  unfoldable pub last_line : BlockInfo → ℕ
  last_line b =
      let per_exec = if b.executions == 0 then 0 else b.instructions / b.executions in
      u64 (b.entry_pc + per_exec * 4 + (2 ^ 64 - 1)) / cfg.line_size

  unfoldable pub prefetch_next : Simulation → ℕ → Simulation
  prefetch_next s line = if cfg.prefetch then refill s line true else s

  -- One iteration of the loop over the entries.
  unfoldable pub enter : List BlockInfo → Simulation → ℕ → Simulation
  enter blocks s id =
      let b = block_at blocks id in
      let first = first_line b in
      let last = last_line b in
      let left = last + 1 - first in
      let t = record s {
        tick = s.tick + 1;
        result = record (s.result) { entries = s.result.entries + 1 };
      } in
      if all_resident t left first
      then count_hit (touch_lines t left first)
      else prefetch_next (refill_lines (count_miss t id) left first) (last + 1)

  unfoldable pub enter_all : List BlockInfo → Simulation → List ℕ → Simulation
  enter_all blocks s [] = s
  enter_all blocks s (id ∷ rest) = enter_all blocks (enter blocks s id) rest

  -- The products and sums are of uint64_t. The difference is of int64_t, and is taken to wrap.
  unfoldable pub finish : ICacheResult → ℕ → ICacheResult
  finish r instructions =
      let stalls = mul64 r.misses cfg.miss_penalty in
      let total = add64 instructions stalls in
      let baseline = add64 instructions (mul64 r.entries cfg.miss_penalty) in
      record r {
        miss_stalls = stalls;
        total_cycles = total;
        baseline_cycles = baseline;
        saved_cycles = signed64 (sub64 baseline total);
      }

  unfoldable pub start : ICacheStats → Simulation
  start stats = record {
    result = empty_result;
    cache = λ index. record {
      ways = [];
      plru = if is_plru cfg.policy then replicate cfg.ways 0 else replicate 0 0;
    };
    block_seen = replicate (length stats.blocks) false;
    tick = 0;
  }

  unfoldable pub simulate_icache : ICacheStats → ICacheResult
  simulate_icache stats =
      let s = enter_all stats.blocks (start stats) stats.entry_sequence in
      if cfg.sets == 0 || cfg.ways == 0 || cfg.line_size == 0
      then empty_result
      else finish s.result stats.instructions
