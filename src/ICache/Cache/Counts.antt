-- ===== src/ICache/Cache/Counts.antt =====
-- The counters of simulate_icache of src/component/icache/icache.cpp: how they add up.
use risc_e.Base.{
  ℕ, zero, suc, ◌+◌, ◌-◌, ◌*◌, ◌%◌, ◌/◌, ◌≤◌, ◌≡◌, refl, arith, Bool, true, false, not, List, [],
  ◌∷◌, length, get_or, ltb, ◌==◌, ◌||◌, if-cases, ◌∙◌, sym, ap,
}
use risc_e.Base.Int.{signed64}
use risc_e.Base.Word.{u64, add64, mul64, sub64}
use risc_e.ICache.Profile.{ICacheStats, BlockInfo, block_at}
use risc_e.ICache.Cache.{
  ICacheConfig, ICacheResult, Simulation, resident, touch, refill, all_resident, touch_lines,
  refill_missing, refill_lines, count_hit, count_miss, first_line, last_line, prefetch_next, enter,
  enter_all, finish, start, simulate_icache, holds, is_plru,
}

-- Of the counters, those that the refills do not change.
abbrev SameCounts : ICacheResult → ICacheResult → Type 0
SameCounts r t =
    (t.entries ≡ r.entries)
    × (t.hits ≡ r.hits)
    × (t.misses ≡ r.misses)
    × (t.compulsory_misses ≡ r.compulsory_misses)
    × (t.conflict_misses ≡ r.conflict_misses)
    × (t.capacity_misses ≡ r.capacity_misses)

abbrev IsTally : ℕ → ℕ → ICacheResult → Type 0
IsTally n u r =
    (r.entries ≡ n)
    × (r.hits + r.misses + u ≡ r.entries)
    × (r.compulsory_misses + r.conflict_misses + r.capacity_misses ≡ r.misses)

module _ (cfg : ICacheConfig) where
  touch-SameCounts : (s : Simulation) (line : ℕ) → (touch cfg s line).result ≡ s.result
  unfolding touch
  touch-SameCounts s line =
      if-cases (λ (t : Simulation). t.result ≡ s.result) (not (holds _ _)) _ _ (λ _. refl)
        λ _.
          if-cases (λ (t : Simulation). t.result ≡ s.result) (is_plru cfg.policy) _ _ (λ _. refl)
            (λ _. refl)

  touch_lines-SameCounts :
      (s : Simulation) (left line : ℕ) → (touch_lines cfg s left line).result ≡ s.result
  unfolding touch_lines
  touch_lines-SameCounts s zero line = refl
  touch_lines-SameCounts s (suc left) line =
      touch_lines-SameCounts (touch cfg s line) left (line + 1) ∙ touch-SameCounts s line

  refill-SameCounts :
      (s : Simulation) (line : ℕ) (is_prefetch : Bool)
      → SameCounts s.result (refill cfg s line is_prefetch).result
  unfolding refill
  refill-SameCounts s line is_prefetch =
      let P : Simulation → Type 0 = λ t. SameCounts s.result t.result in
      if-cases P (holds (s.cache (line % cfg.sets)).ways (line / cfg.sets)) _ _ (λ _. ground arith)
        λ _.
          if-cases P (length (s.cache (line % cfg.sets)).ways == cfg.ways) _ _ (λ _. ground arith)
            (λ _. ground arith)

  refill_lines-SameCounts :
      (s : Simulation) (left line : ℕ) → SameCounts s.result (refill_lines cfg s left line).result
  unfolding refill_lines refill_missing
  refill_lines-SameCounts s zero line = ground arith
  refill_lines-SameCounts s (suc left) line =
      let once : SameCounts s.result (refill_missing cfg s line).result =
        if-cases (λ (t : Simulation). SameCounts s.result t.result) (not (resident cfg s line)) _ _
          (λ _. refill-SameCounts s line false) (λ _. ground arith) in
      omega (arith, refill_lines-SameCounts (refill_missing cfg s line) left (line + 1), once)

  count_miss-IsTally :
      (n : ℕ) (s : Simulation) (id : ℕ)
      → IsTally n 1 s.result
      → IsTally n 0 (count_miss cfg s id).result
  unfolding count_miss
  count_miss-IsTally n s id h =
      let P : Simulation → Type 0 = λ t. IsTally n 0 t.result in
      if-cases P (not (get_or s.block_seen id false)) _ _ (λ _. ground arith)
        λ _. if-cases P (ltb 1 cfg.sets) _ _ (λ _. ground arith) (λ _. ground arith)

  enter-IsTally :
      (blocks : List BlockInfo) (n : ℕ) (s : Simulation) (id : ℕ)
      → IsTally n 0 s.result
      → IsTally (suc n) 0 (enter cfg blocks s id).result
  unfolding enter prefetch_next count_hit
  enter-IsTally blocks n s id h =
      let b = block_at blocks id in
      let first = first_line cfg b in
      let last = last_line cfg b in
      let left = last + 1 - first in
      let t : Simulation = record s {
        tick = s.tick + 1;
        result = record (s.result) { entries = s.result.entries + 1 };
      } in
      let P : Simulation → Type 0 = λ u. IsTally (suc n) 0 u.result in
      let missed = count_miss cfg t id in
      let filled = refill_lines cfg missed left first in
      let counted = count_miss-IsTally (suc n) t id (ground arith) in
      let refilled : P filled = omega (arith, counted, refill_lines-SameCounts missed left first) in
      if-cases P (all_resident cfg t left first) _ _
        (λ _. rw (touch_lines-SameCounts t left first) (ground arith))
        (λ _.
          if-cases P cfg.prefetch _ _
            (λ _. omega (arith, refilled, refill-SameCounts filled (last + 1) true))
            (λ _. refilled))

  enter_all-IsTally :
      (blocks : List BlockInfo) (n : ℕ) (s : Simulation) (ids : List ℕ)
      → IsTally n 0 s.result
      → IsTally (n + length ids) 0 (enter_all cfg blocks s ids).result
  unfolding enter_all
  enter_all-IsTally blocks n s [] h = omega (arith, h)
  enter_all-IsTally blocks n s (id ∷ rest) h =
      let done =
        enter_all-IsTally blocks (suc n) (enter cfg blocks s id) rest
          (enter-IsTally blocks n s id h) in
      omega (arith, done)

sub64_mod : (n a b c : ℕ) → c ≡ a + b → sub64 (add64 n (u64 c)) (add64 n (u64 b)) ≡ u64 a
sub64_mod n a b c e = omega (arith, e)

-- What a result promises, for `n` recorded entries.
abbrev pub IsAccounted : ICacheConfig → ℕ → ICacheResult → Type 0
IsAccounted cfg n r =
    (r.entries ≡ n)
    × (r.hits + r.misses ≡ r.entries)
    × (r.compulsory_misses + r.conflict_misses + r.capacity_misses ≡ r.misses)
    × (r.miss_stalls ≡ mul64 r.misses cfg.miss_penalty)
    × (r.saved_cycles ≡ signed64 (mul64 r.hits cfg.miss_penalty))

-- For a configuration with at least one set, way and byte to a line, each recorded entry is one hit
-- or miss, each miss is compulsory, conflict or capacity, the stall cycles are the misses times the
-- penalty modulo 2 ^ 64, and against no cache at all the cycles saved are the int64_t number that is
-- the hits times the penalty modulo 2 ^ 64.
pub simulate_icache-IsAccounted :
    (cfg : ICacheConfig) (stats : ICacheStats)
    → 1 ≤ cfg.sets
    → 1 ≤ cfg.ways
    → 1 ≤ cfg.line_size
    → IsAccounted cfg (length stats.entry_sequence) (simulate_icache cfg stats)
unfolding simulate_icache finish start
simulate_icache-IsAccounted cfg stats sets ways line_size =
    let s = enter_all cfg stats.blocks (start cfg stats) stats.entry_sequence in
    let tally : IsTally (length stats.entry_sequence) 0 s.result = omega (
      arith,
      enter_all-IsTally cfg stats.blocks 0 (start cfg stats) stats.entry_sequence (ground arith),
    ) in
    if-cases (IsAccounted cfg (length stats.entry_sequence))
      (cfg.sets == 0 || cfg.ways == 0 || cfg.line_size == 0) _ _ (λ bad. ground arith)
      (λ _. (
        tally.0,
        omega (arith, tally),
        tally.2,
        refl,
        saved s.result stats.instructions (omega (arith, tally)),
      ))
  where
    saved :
        (r : ICacheResult) (n : ℕ)
        → r.hits + r.misses ≡ r.entries
        → signed64 (
            sub64
              (add64 n (mul64 r.entries cfg.miss_penalty))
              (add64 n (mul64 r.misses cfg.miss_penalty)))
          ≡ signed64 (mul64 r.hits cfg.miss_penalty)
    saved r n h = ap signed64 (
        rw (sym h)
          (sub64_mod n (r.hits * cfg.miss_penalty) (r.misses * cfg.miss_penalty) _ (ground arith)))
