-- ===== src/DCache/Cache/Tally.antt =====
-- The counters of simulate_dcache of src/component/dcache/dcache.cpp: how they add up.
use risc_e.Base.{
  ℕ, ◌+◌, ◌-◌, ◌*◌, ◌/◌, ◌%◌, ◌≤◌, ◌≡◌, refl, arith, true, false, not, Option, none, some, List, [],
  ◌∷◌, update, ltb, leb, ◌==◌, ◌&&◌, ◌||◌, if◌then◌else◌, if-cases, Option-cases, inl, inr, ap, sym,
  ◌∙◌,
}
use risc_e.Base.Word.{u64, add64, mul64}
use risc_e.DCache.Trace.{DCacheRecord, DCacheStats}
use risc_e.DCache.Replacement
use risc_e.DCache.Cache.{
  DCacheConfig, DCacheResult, Simulation, is_write_back, allocates, find, evict, fill, refill,
  buffer_store, mark_dirty, is_store, count_access, on_hit, on_bypass, classify, write_allocated,
  on_refill, on_miss, access, access_all, finish, start, simulate_dcache, free_way, contains,
}

-- The misses without a stall: the stores that bypass a write-through cache.
abbrev pub uncharged : DCacheConfig → DCacheResult → ℕ
uncharged cfg r = if is_write_back cfg then 0 else r.no_allocate_store_misses

-- Inside one access the sums may lack the access itself: `u` accesses are neither a hit nor a miss
-- yet, `c` misses are not classified, `f` misses may still evict, and `m` have no stall yet.
abbrev IsTally : DCacheConfig → ℕ → ℕ → ℕ → ℕ → DCacheResult → Type 0
IsTally cfg u c f m r =
    (r.loads + r.stores ≡ r.accesses)
    × (r.hits + r.misses + u ≡ r.accesses)
    × (r.compulsory_misses + r.conflict_misses + r.capacity_misses + r.no_allocate_store_misses + c
        ≡ r.misses)
    × (r.evictions + f ≤ r.misses)
    × (r.writebacks ≤ r.evictions)
    × (uncharged cfg r + m ≤ r.misses)
    × (r.miss_stalls ≡ mul64 (r.misses - (uncharged cfg r + m)) cfg.miss_penalty)
    × (r.write_stalls ≡ mul64 r.write_buffer_drains cfg.miss_penalty)
    × (r.writeback_stalls ≡ mul64 r.writebacks cfg.miss_penalty)

-- One more stall of the penalty, where a miss had none.
charge_miss :
    (misses free stalls penalty : ℕ)
    → free + 1 ≤ misses
    → stalls ≡ mul64 (misses - (free + 1)) penalty
    → add64 stalls penalty ≡ mul64 (misses - (free + 0)) penalty
charge_miss misses free stalls penalty fits h =
    let more : misses - (free + 0) ≡ misses - (free + 1) + 1 = omega arith in
    rw (more, h) (ground arith)

uncharged_back :
    (cfg : DCacheConfig) (r : DCacheResult) → not (is_write_back cfg) ≡ false → uncharged cfg r ≡ 0
uncharged_back cfg r back = ground arith

abbrev Tallies : DCacheConfig → ℕ → ℕ → ℕ → ℕ → Simulation → Type 0
Tallies cfg u c f m s = IsTally cfg u c f m s.result

module _ (cfg : DCacheConfig) where
  count_access-IsTally :
      (s : Simulation) (rec : DCacheRecord)
      → IsTally cfg 0 0 0 0 s.result
      → IsTally cfg 1 0 0 0 (count_access cfg s rec).result
  unfolding count_access
  count_access-IsTally s rec h = ground arith

  mark_dirty-result : (s : Simulation) (set w : ℕ) → (mark_dirty cfg s set w).result ≡ s.result
  unfolding mark_dirty
  mark_dirty-result s set w = refl

  buffer_store-IsTally :
      (u c f m : ℕ) (s : Simulation)
      → Tallies cfg u c f m s
      → Tallies cfg u c f m (buffer_store cfg s)
  unfolding buffer_store
  buffer_store-IsTally u c f m s h =
      if-cases (Tallies cfg u c f m) (leb cfg.write_buffer_depth (s.pending_writes + 1)) _ _
        (λ _. ground arith) (λ _. h)

  on_hit-IsTally :
      (s : Simulation) (rec : DCacheRecord) (set w : ℕ)
      → Tallies cfg 1 0 0 0 s
      → Tallies cfg 0 0 0 0 (on_hit cfg s rec set w)
  unfolding on_hit mark_dirty
  on_hit-IsTally s rec set w h =
      let hit : Simulation = record s {
        result = record (s.result) { hits = s.result.hits + 1 };
        replacement = update s.replacement set (Replacement.touch (s.replacement set) w);
      } in
      let tally : Tallies cfg 0 0 0 0 hit = ground arith in
      if-cases (Tallies cfg 0 0 0 0) (is_store cfg rec) _ _
        (λ _.
          if-cases (Tallies cfg 0 0 0 0) (is_write_back cfg) _ _ (λ _. tally)
            (λ _. buffer_store-IsTally 0 0 0 0 hit tally))
        (λ _. tally)

  evict-IsTally :
      (u c m : ℕ) (s : Simulation) (set slot : ℕ)
      → Tallies cfg u c 1 m s
      → Tallies cfg u c 0 m (evict cfg s set slot)
  unfolding evict
  evict-IsTally u c m s set slot h =
      if-cases (Tallies cfg u c 0 m) (s.storage (set * cfg.ways + slot)).dirty _ _
        (λ _. ground arith) (λ _. ground arith)

  refill-IsTally :
      (u c m : ℕ) (s : Simulation) (line set : ℕ)
      → Tallies cfg u c 1 m s
      → Tallies cfg u c 0 m (refill cfg s line set)
  unfolding refill
  refill-IsTally u c m s line set h = elim (Option-cases (find cfg s set (line / cfg.sets))) [
    | inr (w, e) ↦ rw (e, refill) kept
    | inl e ↦ elim (Option-cases (free_way s.storage (set * cfg.ways) cfg.ways 0)) [
      | inr (slot, f) ↦ rw (e, f, refill) (unfold fill in kept)
      | inl f ↦ rw (e, f, refill) (unfold fill in evict-IsTally u c m s set _ h)
    ]
  ]
    where
      kept : Tallies cfg u c 0 m s
      kept = ground arith

  classify-IsTally :
      (u f m : ℕ) (s : Simulation) (line : ℕ)
      → Tallies cfg u 1 f m s
      → Tallies cfg u 0 f m (classify cfg s line)
  unfolding classify
  classify-IsTally u f m s line h =
      if-cases (Tallies cfg u 0 f m) (not (contains cfg line s.seen_lines)) _ _ (λ _. ground arith)
        λ _.
          if-cases (Tallies cfg u 0 f m) (ltb 1 cfg.sets) _ _ (λ _. ground arith)
            (λ _. ground arith)

  write_allocated-IsTally :
      (s : Simulation) (rec : DCacheRecord) (set tag : ℕ)
      → Tallies cfg 0 0 0 0 s
      → Tallies cfg 0 0 0 0 (write_allocated cfg s rec set tag)
  unfolding write_allocated
  write_allocated-IsTally s rec set tag h =
      if-cases (Tallies cfg 0 0 0 0) (is_store cfg rec) _ _
        (λ _.
          if-cases (Tallies cfg 0 0 0 0) (is_write_back cfg) _ _ (λ _. marked (find cfg s set tag))
            (λ _. buffer_store-IsTally 0 0 0 0 s h))
        (λ _. h)
    where
      marked :
          (way : Option ℕ)
          → Tallies cfg 0 0 0 0 (elim way [ none ↦ s | some w ↦ mark_dirty cfg s set w ])
      marked none = h
      marked (some w) = unfold mark_dirty in h

  on_refill-IsTally :
      (s : Simulation) (rec : DCacheRecord) (line set : ℕ)
      → Tallies cfg 0 1 1 1 s
      → Tallies cfg 0 0 0 0 (on_refill cfg s rec line set)
  unfolding on_refill
  on_refill-IsTally s rec line set h =
      let stalled : Simulation = record s {
        result = record (s.result) { miss_stalls = add64 s.result.miss_stalls cfg.miss_penalty };
      } in
      let (loads, hits, classes, evictions, writebacks, fits, stalls, drains, back) = h in
      let charged : Tallies cfg 0 1 1 0 stalled = (
        loads,
        hits,
        classes,
        evictions,
        writebacks,
        omega (arith, fits),
        charge_miss s.result.misses (uncharged cfg s.result) s.result.miss_stalls cfg.miss_penalty
            fits stalls,
        drains,
        back,
      ) in
      write_allocated-IsTally _ rec set _
        (classify-IsTally 0 0 0 _ line (refill-IsTally 0 1 0 stalled line set charged))

  on_bypass-IsTally :
      (s : Simulation) (rec : DCacheRecord)
      → Tallies cfg 0 1 1 1 s
      → Tallies cfg 0 0 0 0 (on_bypass cfg s rec)
  unfolding on_bypass
  on_bypass-IsTally s rec h =
      let counted : Simulation = record s {
        result = record (s.result) {
          no_allocate_store_misses = s.result.no_allocate_store_misses + 1;
        };
      } in
      if-cases (Tallies cfg 0 0 0 0) (not (is_write_back cfg)) _ _
        (λ through. buffer_store-IsTally 0 0 0 0 counted (bypassed through)) (λ back. charged back)
    where
      bypassed :
          not (is_write_back cfg) ≡ true
          → IsTally cfg 0 0 0 0 (record (s.result) {
            no_allocate_store_misses = s.result.no_allocate_store_misses + 1;
          })
      bypassed through = ground arith

      charged :
          not (is_write_back cfg) ≡ false
          → IsTally cfg 0 0 0 0 (record (s.result) {
            no_allocate_store_misses = s.result.no_allocate_store_misses + 1;
            miss_stalls = add64 s.result.miss_stalls cfg.miss_penalty;
          })
      charged back =
          let (loads, hits, classes, evictions, writebacks, fits, stalls, drains, writes) = h in
          let r = record (s.result) {
            no_allocate_store_misses = s.result.no_allocate_store_misses + 1;
            miss_stalls = add64 s.result.miss_stalls cfg.miss_penalty;
          } in
          let now = uncharged_back cfg r back in
          let before = uncharged_back cfg s.result back in
          (
            loads,
            omega (arith, hits),
            omega (arith, classes),
            omega (arith, evictions),
            writebacks,
            omega (arith, now),
            charge_miss s.result.misses 0 s.result.miss_stalls cfg.miss_penalty
                  (omega (arith, fits, before))
                  (stalls ∙ ap (λ u. mul64 (s.result.misses - (u + 1)) cfg.miss_penalty) before)
                ∙ ap (λ u. mul64 (s.result.misses - (u + 0)) cfg.miss_penalty) (sym now),
            drains,
            writes,
          )

  on_miss-IsTally :
      (s : Simulation) (rec : DCacheRecord) (line set : ℕ)
      → Tallies cfg 1 0 0 0 s
      → Tallies cfg 0 0 0 0 (on_miss cfg s rec line set)
  unfolding on_miss
  on_miss-IsTally s rec line set h =
      let missed : Simulation = record s {
        result = record (s.result) { misses = s.result.misses + 1 };
      } in
      let open_miss : Tallies cfg 0 1 1 1 missed = ground arith in
      if-cases (Tallies cfg 0 0 0 0) (is_store cfg rec && not (allocates cfg)) _ _
        (λ _. on_bypass-IsTally missed rec open_miss)
        (λ _. on_refill-IsTally missed rec line set open_miss)

  access-IsTally :
      (s : Simulation) (rec : DCacheRecord)
      → Tallies cfg 0 0 0 0 s
      → Tallies cfg 0 0 0 0 (access cfg s rec)
  unfolding access
  access-IsTally s rec h =
      let t = count_access cfg s rec in
      let line = rec.addr / cfg.line_size in
      let set = line % cfg.sets in
      let counted = count_access-IsTally s rec h in
      elim (Option-cases (find cfg t set (line / cfg.sets))) [
        | inl e ↦ rw (e, access) (on_miss-IsTally t rec line set counted)
        | inr (w, e) ↦ rw (e, access) (on_hit-IsTally t rec set w counted)
      ]

  access_all-IsTally :
      (s : Simulation) (records : List DCacheRecord)
      → Tallies cfg 0 0 0 0 s
      → Tallies cfg 0 0 0 0 (access_all cfg s records)
  unfolding access_all
  access_all-IsTally s [] h = h
  access_all-IsTally s (rec ∷ rest) h =
      access_all-IsTally (access cfg s rec) rest (access-IsTally s rec h)

-- What a result promises: each access is one load or store and one hit or miss, each miss has one
-- class, no more lines are evicted than missed, the stalls are the priced events, and the total is the
-- priced hits and events, all cycles as uint64_t numbers. The priced events are every miss but a
-- write-through store that does not allocate, every drain of the write buffer, and every dirty eviction.
abbrev pub IsAccounted : DCacheConfig → DCacheResult → Type 0
IsAccounted cfg r =
    (r.loads + r.stores ≡ r.accesses)
    × (r.hits + r.misses ≡ r.accesses)
    × (r.compulsory_misses + r.conflict_misses + r.capacity_misses + r.no_allocate_store_misses
        ≡ r.misses)
    × (r.writebacks ≤ r.evictions)
    × (r.evictions ≤ r.misses)
    × (uncharged cfg r ≤ r.misses)
    × (r.miss_stalls ≡ mul64 (r.misses - uncharged cfg r) cfg.miss_penalty)
    × (r.write_stalls ≡ mul64 r.write_buffer_drains cfg.miss_penalty)
    × (r.writeback_stalls ≡ mul64 r.writebacks cfg.miss_penalty)
    × (r.total_cycles
        ≡ u64 (
            r.hits * cfg.hit_latency
            + (r.misses - uncharged cfg r + r.write_buffer_drains + r.writebacks)
              * cfg.miss_penalty))

add64_mod :
    (a b c d : ℕ) → add64 (add64 (add64 (u64 a) (u64 b)) (u64 c)) (u64 d) ≡ u64 (a + b + c + d)
add64_mod a b c d = omega arith

IsTally-IsAccounted :
    (cfg : DCacheConfig) (r : DCacheResult) → IsTally cfg 0 0 0 0 r → IsAccounted cfg (finish cfg r)
unfolding finish
IsTally-IsAccounted cfg r
      (loads, hits, classes, evictions, writebacks, fits, stalls, drains, writes) =
    (
      loads,
      omega (arith, hits),
      omega (arith, classes),
      writebacks,
      omega (arith, evictions),
      omega (arith, fits),
      charged,
      drains,
      writes,
      summed,
    )
  where
    free : uncharged cfg r + 0 ≡ uncharged cfg r
    free = omega arith

    charged : r.miss_stalls ≡ mul64 (r.misses - uncharged cfg r) cfg.miss_penalty
    charged = stalls ∙ ap (λ u. mul64 (r.misses - u) cfg.miss_penalty) free

    priced : ℕ
    priced =
        r.hits * cfg.hit_latency
        + (r.misses - uncharged cfg r) * cfg.miss_penalty
        + r.write_buffer_drains * cfg.miss_penalty
        + r.writebacks * cfg.miss_penalty

    in_order : (finish cfg r).total_cycles ≡ u64 priced
    in_order =
        rw (charged, drains, writes)
          (add64_mod (r.hits * cfg.hit_latency) ((r.misses - uncharged cfg r) * cfg.miss_penalty)
            (r.write_buffer_drains * cfg.miss_penalty) (r.writebacks * cfg.miss_penalty))

    together :
        priced
        ≡ r.hits * cfg.hit_latency
          + (r.misses - uncharged cfg r + r.write_buffer_drains + r.writebacks) * cfg.miss_penalty
    together = ground arith

    summed :
        (finish cfg r).total_cycles
        ≡ u64 (
            r.hits * cfg.hit_latency
            + (r.misses - uncharged cfg r + r.write_buffer_drains + r.writebacks)
              * cfg.miss_penalty)
    summed = in_order ∙ ap u64 together

-- For every trace, every configuration and with or without a miss stream, the counters of a
-- simulated data cache add up: accesses into loads and stores and into hits and misses, misses into
-- their four classes, evictions and write-backs within the misses. Modulo 2 ^ 64, each kind of stall
-- cycles is its events times the penalty, and the total is the hits times the hit latency and all of
-- these events times the penalty.
pub simulate_dcache-IsAccounted :
    (cfg : DCacheConfig) (trace : DCacheStats) (miss_stream : Option DCacheStats)
    → IsAccounted cfg (simulate_dcache cfg trace miss_stream).0
unfolding simulate_dcache start
simulate_dcache-IsAccounted cfg trace miss_stream =
    let tally : Tallies cfg 0 0 0 0 (access_all cfg (start cfg miss_stream) trace.records) =
      access_all-IsTally cfg (start cfg miss_stream) trace.records (ground arith) in
    if-cases (λ (r : DCacheResult × Option DCacheStats). IsAccounted cfg r.0)
      (cfg.sets == 0 || cfg.ways == 0 || cfg.line_size == 0 || cfg.write_buffer_depth == 0) _ _
      (λ _. ground arith)
      (λ _.
        IsTally-IsAccounted cfg (access_all cfg (start cfg miss_stream) trace.records).result tally)
