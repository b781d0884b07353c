-- ===== src/ICache/Cache/Occupancy.antt =====
-- The sets of the instruction cache: simulate_icache of src/component/icache/icache.cpp never lets a
-- set outgrow its ways.
use risc_e.Base.{
  ℕ, zero, suc, ◌+◌, ◌-◌, ◌%◌, ◌/◌, ◌≤◌, ◌<◌, ◌≡◌, ◌⊎◌, refl, arith, Bool, true, false, not, List,
  [], ◌∷◌, length, length-append, length-set, get_or, update, ltb, ◌==◌, if◌then◌else◌, if-cases,
  ==_iff, inl, ap,
}
use risc_e.DCache.Replacement.Victims.{victim_path-lt}
use risc_e.ICache.Profile.{BlockInfo, block_at}
use risc_e.ICache.Cache.{
  ICacheConfig, CacheSet, Way, Simulation, resident, touch, refill, all_resident, touch_lines,
  refill_missing, refill_lines, count_hit, count_miss, first_line, last_line, prefetch_next, enter,
  enter_all, holds, is_plru, oldest, victim_plru, erase, evict_one, push_line, no_way, position,
}

length-erase :
    (ways : List Way) (i : ℕ) → i < length ways → suc (length (erase ways i)) ≡ length ways
unfolding erase
length-erase [] i h = absurd (omega arith)
length-erase (w ∷ rest) zero h = refl
length-erase (w ∷ rest) (suc i) h = ap suc (length-erase rest i (omega arith))

oldest-range :
    (ways : List Way) (left i best : ℕ)
    → let r = oldest ways left i best in (r ≡ best) ⊎ ((i ≤ r) × (r < i + left))
unfolding oldest
oldest-range ways zero i best = inl refl
oldest-range ways (suc left) i best = ground (
  arith,
  oldest-range ways left (i + 1)
      (if ltb (get_or ways i no_way).last_use (get_or ways best no_way).last_use then i else best),
)

-- No set holds more lines than it has ways.
abbrev pub IsWithin : ICacheConfig → (ℕ → CacheSet) → Type 0
IsWithin cfg cache = (index : ℕ) → length (cache index).ways ≤ cfg.ways

module _ (cfg : ICacheConfig) (positive : 1 ≤ cfg.ways) where
  -- An eviction from a full set frees exactly one way, under both policies.
  evict_one-length :
      (here : CacheSet)
      → length here.ways ≡ cfg.ways
      → suc (length (evict_one cfg here).ways) ≡ cfg.ways
  unfolding evict_one victim_plru
  evict_one-length here full =
      let victim_lt : (b : Bool)
          → (if b
              then victim_plru here.plru cfg.ways
              else oldest here.ways (length here.ways - 1) 1 0)
            < length here.ways =
        λ b.
          if-cases (λ r. r < length here.ways) b _ _
            (λ _. rw full (
              victim_path-lt cfg.ways here.plru cfg.ways 1 (omega arith) (omega arith)
                (omega arith)))
            (λ _. omega (arith, oldest-range here.ways (length here.ways - 1) 1 0)) in
      omega (arith, length-erase here.ways _ (victim_lt (is_plru cfg.policy)))

  push_line-length :
      (here : CacheSet) (tag tick : ℕ)
      → length (push_line cfg here tag tick).ways ≡ suc (length here.ways)
  unfolding push_line
  push_line-length here tag tick =
      if-cases (λ (t : CacheSet). length t.ways ≡ suc (length here.ways)) (is_plru cfg.policy) _ _
        (λ _. omega (arith, length-append here.ways (record { tag = tag; last_use = tick } ∷ [])))
        (λ _. omega (arith, length-append here.ways (record { tag = tag; last_use = tick } ∷ [])))

  update-IsWithin :
      (cache : ℕ → CacheSet) (index : ℕ) (new : CacheSet)
      → IsWithin cfg cache
      → length new.ways ≤ cfg.ways
      → IsWithin cfg (update cache index new)
  update-IsWithin cache index new h small j =
      if-cases (λ (t : CacheSet). length t.ways ≤ cfg.ways) (index == j) _ _ (λ _. small) (λ _. h j)

  refill-IsWithin :
      (s : Simulation) (line : ℕ) (is_prefetch : Bool)
      → IsWithin cfg s.cache
      → IsWithin cfg (refill cfg s line is_prefetch).cache
  unfolding refill
  refill-IsWithin s line is_prefetch h =
      let P : Simulation → Type 0 = λ t. IsWithin cfg t.cache in
      let index = line % cfg.sets in
      let tag = line / cfg.sets in
      let here = s.cache index in
      if-cases P (holds here.ways tag) _ _ (λ _. h)
        λ _.
          if-cases P (length here.ways == cfg.ways) _ _
            (λ full. update-IsWithin s.cache index _ h (
              omega (
                arith,
                push_line-length (evict_one cfg here) tag s.tick,
                evict_one-length here ((==_iff _ _).0 full),
              )))
            (λ room.
              let small : length here.ways < cfg.ways = ground (arith, h index) in
              update-IsWithin s.cache index _ h
                (omega (arith, push_line-length here tag s.tick, small)))

  touch-IsWithin :
      (s : Simulation) (line : ℕ) → IsWithin cfg s.cache → IsWithin cfg (touch cfg s line).cache
  unfolding touch
  touch-IsWithin s line h =
      let P : Simulation → Type 0 = λ t. IsWithin cfg t.cache in
      let index = line % cfg.sets in
      let here = s.cache index in
      let i = position here.ways (line / cfg.sets) in
      if-cases P (not (holds here.ways (line / cfg.sets))) _ _ (λ _. h)
        λ _.
          if-cases P (is_plru cfg.policy) _ _ (λ _. update-IsWithin s.cache index _ h (h index))
            (λ _. update-IsWithin s.cache index _ h (
              omega (
                arith,
                length-set here.ways i (record (get_or here.ways i no_way) { last_use = s.tick }),
                h index,
              )))

  touch_lines-IsWithin :
      (s : Simulation) (left line : ℕ)
      → IsWithin cfg s.cache
      → IsWithin cfg (touch_lines cfg s left line).cache
  unfolding touch_lines
  touch_lines-IsWithin s zero line h = h
  touch_lines-IsWithin s (suc left) line h =
      touch_lines-IsWithin (touch cfg s line) left (line + 1) (touch-IsWithin s line h)

  refill_lines-IsWithin :
      (s : Simulation) (left line : ℕ)
      → IsWithin cfg s.cache
      → IsWithin cfg (refill_lines cfg s left line).cache
  unfolding refill_lines refill_missing
  refill_lines-IsWithin s zero line h = h
  refill_lines-IsWithin s (suc left) line h =
      refill_lines-IsWithin (refill_missing cfg s line) left (line + 1) (
        if-cases (λ (t : Simulation). IsWithin cfg t.cache) (not (resident cfg s line)) _ _
          (λ _. refill-IsWithin s line false h) (λ _. h))

  count_miss-cache : (s : Simulation) (id : ℕ) → (count_miss cfg s id).cache ≡ s.cache
  unfolding count_miss
  count_miss-cache s id =
      let P : Simulation → Type 0 = λ t. t.cache ≡ s.cache in
      if-cases P (not (get_or s.block_seen id false)) _ _ (λ _. refl)
        λ _. if-cases P (ltb 1 cfg.sets) _ _ (λ _. refl) (λ _. refl)

  enter-IsWithin :
      (blocks : List BlockInfo) (s : Simulation) (id : ℕ)
      → IsWithin cfg s.cache
      → IsWithin cfg (enter cfg blocks s id).cache
  unfolding enter prefetch_next count_hit
  enter-IsWithin blocks s id h =
      let b = block_at blocks id in
      let first = first_line cfg b in
      let last = last_line cfg b in
      let left = last + 1 - first in
      let t : Simulation = record s {
        tick = s.tick + 1;
        result = record (s.result) { entries = s.result.entries + 1 };
      } in
      let P : Simulation → Type 0 = λ u. IsWithin cfg u.cache in
      let missed = count_miss cfg t id in
      let filled : P (refill_lines cfg missed left first) =
        refill_lines-IsWithin missed left first (rw (count_miss-cache t id) h) in
      if-cases P (all_resident cfg t left first) _ _ (λ _. touch_lines-IsWithin t left first h)
        (λ _.
          if-cases P cfg.prefetch _ _
            (λ _. refill-IsWithin (refill_lines cfg missed left first) (last + 1) true filled)
            (λ _. filled))

  -- At every point of a simulation no set holds more lines than the cache has ways, under LRU and
  -- under tree replacement, with and without prefetching.
  pub enter_all-IsWithin :
      (blocks : List BlockInfo) (s : Simulation) (ids : List ℕ)
      → IsWithin cfg s.cache
      → IsWithin cfg (enter_all cfg blocks s ids).cache
  unfolding enter_all
  enter_all-IsWithin blocks s [] h = h
  enter_all-IsWithin blocks s (id ∷ rest) h =
      enter_all-IsWithin blocks (enter cfg blocks s id) rest (enter-IsWithin blocks s id h)
