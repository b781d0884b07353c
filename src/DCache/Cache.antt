-- ===== src/DCache/Cache.antt =====
-- The data-cache simulation: src/component/dcache/dcache.cpp and
-- include/risc-e/component/dcache/dcache.hpp.
-- The vectors over ways and sets are functions of their index, and the set of lines seen is a list.
-- Of the results the floating-point ratios are left out, and the saved cycles are an integer.
pub mod Tally
use risc_e.Base.{
  ℕ, zero, suc, ◌+◌, ◌-◌, ◌*◌, ◌/◌, ◌%◌, Bool, true, false, not, Option, none, some, List, [], ◌∷◌,
  update, ltb, leb, ◌==◌, ◌&&◌, ◌||◌, if◌then◌else◌,
}
use risc_e.Base.Int.{ℤ, signed64}
use risc_e.Base.Word.{u32, add64, mul64, sub64}
use risc_e.DCache.Trace
use risc_e.DCache.Trace.{DCacheKind, DCacheRecord, DCacheStats, record_access}
use risc_e.DCache.Replacement
use risc_e.DCache.Replacement.{ReplacementPolicy, ReplacementState}

pub data WritePolicy : Type 0 where
  write_through write_back : WritePolicy

pub data WriteAllocate : Type 0 where
  no_write_allocate write_allocate : WriteAllocate

pub record DCacheConfig : Type 0 where
  pub hit_latency : ℕ
  pub miss_penalty : ℕ
  pub line_size : ℕ
  pub sets : ℕ
  pub ways : ℕ
  pub write_buffer_depth : ℕ
  pub policy : ReplacementPolicy
  pub write_policy : WritePolicy
  pub allocation : WriteAllocate

pub record DCacheResult : Type 0 where
  pub accesses : ℕ
  pub loads : ℕ
  pub stores : ℕ
  pub hits : ℕ
  pub misses : ℕ
  pub compulsory_misses : ℕ
  pub conflict_misses : ℕ
  pub capacity_misses : ℕ
  pub no_allocate_store_misses : ℕ
  pub evictions : ℕ
  pub writebacks : ℕ
  pub miss_stalls : ℕ
  pub write_stalls : ℕ
  pub write_buffer_drains : ℕ
  pub writeback_stalls : ℕ
  pub total_cycles : ℕ
  pub baseline_cycles : ℕ
  pub saved_cycles : ℤ

abbrev pub empty_result : DCacheResult
empty_result = record {
  accesses = 0;
  loads = 0;
  stores = 0;
  hits = 0;
  misses = 0;
  compulsory_misses = 0;
  conflict_misses = 0;
  capacity_misses = 0;
  no_allocate_store_misses = 0;
  evictions = 0;
  writebacks = 0;
  miss_stalls = 0;
  write_stalls = 0;
  write_buffer_drains = 0;
  writeback_stalls = 0;
  total_cycles = 0;
  baseline_cycles = 0;
  saved_cycles = ℤ.pos 0;
}

pub record Way : Type 0 where
  pub tag : ℕ
  pub valid : Bool
  pub dirty : Bool

-- The variables of simulate_dcache. No miss stream is `none`.
pub record Simulation : Type 0 where
  pub result : DCacheResult
  pub storage : ℕ → Way
  pub replacement : ℕ → ReplacementState
  pub seen_lines : List ℕ
  pub pending_writes : ℕ
  pub miss_stream : Option DCacheStats

abbrev pub is_write_back : DCacheConfig → Bool
is_write_back cfg = elim cfg.write_policy [
  | WritePolicy.write_back ↦ true
  | WritePolicy.write_through ↦ false
]

abbrev pub allocates : DCacheConfig → Bool
allocates cfg = elim cfg.allocation [
  | WriteAllocate.write_allocate ↦ true
  | WriteAllocate.no_write_allocate ↦ false
]

-- The first of the `left` ways from `w` on of the set at `base` that holds `tag`.
unfoldable pub find_way : (ℕ → Way) → ℕ → ℕ → ℕ → ℕ → Option ℕ
find_way storage base tag zero w = none
find_way storage base tag (suc left) w =
    let rest = find_way storage base tag left (w + 1) in
    let way = storage (base + w) in if way.valid && way.tag == tag then some w else rest

unfoldable pub free_way : (ℕ → Way) → ℕ → ℕ → ℕ → Option ℕ
free_way storage base zero w = none
free_way storage base (suc left) w =
    let rest = free_way storage base left (w + 1) in
    if not (storage (base + w)).valid then some w else rest

abbrev pub record_miss : Option DCacheStats → DCacheKind → ℕ → ℕ → Option DCacheStats
record_miss none kind addr size = none
record_miss (some stream) kind addr size = some (record_access stream kind addr size)

module _ (cfg : DCacheConfig) where
  abbrev pub find : Simulation → ℕ → ℕ → Option ℕ
  find s set tag = find_way s.storage (set * cfg.ways) tag cfg.ways 0

  -- An eviction of the way `slot` of `set`, with the write-back of a dirty line.
  unfoldable pub evict : Simulation → ℕ → ℕ → Simulation
  evict s set slot =
      let way = s.storage (set * cfg.ways + slot) in
      let r = record (s.result) { evictions = s.result.evictions + 1 } in
      if way.dirty
      then record s {
        result = record r {
          writebacks = r.writebacks + 1;
          writeback_stalls = add64 r.writeback_stalls cfg.miss_penalty;
        };
        miss_stream =
            record_miss s.miss_stream DCacheKind.store
              (u32 ((way.tag * cfg.sets + set) * cfg.line_size)) 4;
      }
      else record s { result = r }

  unfoldable pub fill : Simulation → ℕ → ℕ → ℕ → Simulation
  fill s set slot tag = record s {
    storage =
        update s.storage (set * cfg.ways + slot)
          (record { tag = tag; valid = true; dirty = false });
    replacement = update s.replacement set (Replacement.touch (s.replacement set) slot);
  }

  unfoldable pub refill : Simulation → ℕ → ℕ → Simulation
  refill s line set =
      let tag = line / cfg.sets in
      elim (find s set tag) [
        | some w ↦ s
        | none ↦ elim (free_way s.storage (set * cfg.ways) cfg.ways 0) [
          | some slot ↦ fill s set slot tag
          | none ↦
              let slot = Replacement.victim (s.replacement set) in
              fill (evict s set slot) set slot tag
        ]
      ]

  unfoldable pub buffer_store : Simulation → Simulation
  buffer_store s =
      let pending = s.pending_writes + 1 in
      if leb cfg.write_buffer_depth pending
      then record s {
        pending_writes = 0;
        result = record (s.result) {
          write_stalls = add64 s.result.write_stalls cfg.miss_penalty;
          write_buffer_drains = s.result.write_buffer_drains + 1;
        };
      }
      else record s { pending_writes = pending }

  unfoldable pub mark_dirty : Simulation → ℕ → ℕ → Simulation
  mark_dirty s set w =
      let i = set * cfg.ways + w in
      record s { storage = update s.storage i (record (s.storage i) { dirty = true }) }

  abbrev pub is_store : DCacheRecord → Bool
  is_store rec = elim rec.kind [ DCacheKind.store ↦ true | _ ↦ false ]

  -- Loads are counted apart, everything else as a store.
  unfoldable pub count_access : Simulation → DCacheRecord → Simulation
  count_access s rec =
      let r = record (s.result) { accesses = s.result.accesses + 1 } in
      record s {
        result = elim rec.kind [
          | DCacheKind.load ↦ record r { loads = r.loads + 1 }
          | _ ↦ record r { stores = r.stores + 1 }
        ];
      }

  unfoldable pub on_hit : Simulation → DCacheRecord → ℕ → ℕ → Simulation
  on_hit s rec set w =
      let t = record s {
        result = record (s.result) { hits = s.result.hits + 1 };
        replacement = update s.replacement set (Replacement.touch (s.replacement set) w);
      } in
      if is_store rec then (if is_write_back cfg then mark_dirty t set w else buffer_store t) else t

  -- A store miss that does not allocate.
  unfoldable pub on_bypass : Simulation → DCacheRecord → Simulation
  on_bypass s rec =
      let counted = record s {
        result = record (s.result) {
          no_allocate_store_misses = s.result.no_allocate_store_misses + 1;
        };
      } in
      let t = if not (is_write_back cfg) then buffer_store counted else record counted {
        result = record (counted.result) {
          miss_stalls = add64 counted.result.miss_stalls cfg.miss_penalty;
        };
      } in
      record t { miss_stream = record_miss t.miss_stream DCacheKind.store rec.addr rec.size }

  abbrev pub contains : ℕ → List ℕ → Bool
  contains line [] = false
  contains line (l ∷ rest) = l == line || contains line rest

  unfoldable pub classify : Simulation → ℕ → Simulation
  classify s line =
      let r = s.result in
      if not (contains line s.seen_lines)
      then record s {
        seen_lines = line ∷ s.seen_lines;
        result = record r { compulsory_misses = r.compulsory_misses + 1 };
      }
      else if ltb 1 cfg.sets
      then record s { result = record r { conflict_misses = r.conflict_misses + 1 } }
      else record s { result = record r { capacity_misses = r.capacity_misses + 1 } }

  -- The write of a store that has allocated its line.
  unfoldable pub write_allocated : Simulation → DCacheRecord → ℕ → ℕ → Simulation
  write_allocated s rec set tag =
      if is_store rec
      then (if is_write_back cfg
          then elim (find s set tag) [ none ↦ s | some w ↦ mark_dirty s set w ]
          else buffer_store s)
      else s

  unfoldable pub on_refill : Simulation → DCacheRecord → ℕ → ℕ → Simulation
  on_refill s rec line set =
      let stalled = record s {
        result = record (s.result) { miss_stalls = add64 s.result.miss_stalls cfg.miss_penalty };
      } in
      let t = refill stalled line set in
      let u = record t {
        miss_stream = record_miss t.miss_stream DCacheKind.load rec.addr rec.size;
      } in
      write_allocated (classify u line) rec set (line / cfg.sets)

  unfoldable pub on_miss : Simulation → DCacheRecord → ℕ → ℕ → Simulation
  on_miss s rec line set =
      let t = record s { result = record (s.result) { misses = s.result.misses + 1 } } in
      if is_store rec && not (allocates cfg) then on_bypass t rec else on_refill t rec line set

  -- One iteration of the loop over the records.
  unfoldable pub access : Simulation → DCacheRecord → Simulation
  access s rec =
      let t = count_access s rec in
      let line = rec.addr / cfg.line_size in
      let set = line % cfg.sets in
      elim (find t set (line / cfg.sets)) [
        | none ↦ on_miss t rec line set
        | some w ↦ on_hit t rec set w
      ]

  unfoldable pub access_all : Simulation → List DCacheRecord → Simulation
  access_all s [] = s
  access_all s (rec ∷ rest) = access_all (access s rec) rest

  -- The products and sums are of uint64_t. The difference is of int64_t, and is taken to wrap.
  unfoldable pub finish : DCacheResult → DCacheResult
  finish r =
      let hit_cycles = mul64 r.hits cfg.hit_latency in
      let total =
        add64 (add64 (add64 hit_cycles r.miss_stalls) r.write_stalls) r.writeback_stalls in
      let baseline = mul64 r.accesses cfg.miss_penalty in
      record r {
        total_cycles = total;
        baseline_cycles = baseline;
        saved_cycles = signed64 (sub64 baseline total);
      }

  unfoldable pub start : Option DCacheStats → Simulation
  start miss_stream = record {
    result = empty_result;
    storage = λ i. record { tag = 0; valid = false; dirty = false };
    replacement = λ set. Replacement.new cfg.ways cfg.policy;
    seen_lines = [];
    pending_writes = 0;
    miss_stream = miss_stream;
  }

  -- simulate_dcache: the result, and the miss stream as it is left.
  unfoldable pub simulate_dcache :
      DCacheStats → Option DCacheStats → DCacheResult × Option DCacheStats
  simulate_dcache trace miss_stream =
      let s = access_all (start miss_stream) trace.records in
      if cfg.sets == 0 || cfg.ways == 0 || cfg.line_size == 0 || cfg.write_buffer_depth == 0
      then (empty_result, miss_stream)
      else (finish s.result, s.miss_stream)
