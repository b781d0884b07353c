-- ===== src/DCache/Replacement/Victims.antt =====
-- The choice of a victim: src/component/dcache/replacement.cpp.
use risc_e.Base.{
  ℕ, zero, suc, ◌+◌, ◌-◌, ◌*◌, ◌≤◌, ◌<◌, ◌≡◌, ◌≢◌, ◌⊎◌, refl, arith, true, List, length, get_or,
  set, get_or-set, length-set, ltb, ◌==◌, if◌then◌else◌, if-cases, inl, subst, sym, ap,
}
use risc_e.DCache.Replacement.{ReplacementState, by_tick, touch, oldest_from, victim_path, victim}

-- The scan returns the best so far or a way that it looked at.
oldest_from-range :
    (ticks : List ℕ) (left i best : ℕ)
    → let r = oldest_from ticks left i best in (r ≡ best) ⊎ ((i ≤ r) × (r < i + left))
unfolding oldest_from
oldest_from-range ticks zero i best = inl refl
oldest_from-range ticks (suc left) i best = ground (
  arith,
  oldest_from-range ticks left (i + 1)
      (if ltb (get_or ticks i 0) (get_or ticks best 0) then i else best),
)

-- No way that the scan looked at, nor the best so far, has a smaller tick.
oldest_from-least :
    (ticks : List ℕ) (left i best j : ℕ)
    → (j ≡ best) ⊎ ((i ≤ j) × (j < i + left))
    → get_or ticks (oldest_from ticks left i best) 0 ≤ get_or ticks j 0
unfolding oldest_from
oldest_from-least ticks zero i best j h = ground arith
oldest_from-least ticks (suc left) i best j h =
    let next = if ltb (get_or ticks i 0) (get_or ticks best 0) then i else best in
    ground (
      arith,
      oldest_from-least ticks left (i + 1) next next (inl refl),
      oldest_from-least ticks left (i + 1) next j,
    )

-- Every step down the tree at least doubles the node, so the fuel suffices to reach a leaf.
pub victim_path-lt :
    (fuel : ℕ) (bits : List ℕ) (ways node : ℕ)
    → 1 ≤ node
    → node < 2 * ways
    → ways ≤ node + fuel
    → victim_path fuel bits ways node < ways
unfolding victim_path
victim_path-lt zero bits ways node positive below enough = omega arith
victim_path-lt (suc fuel) bits ways node positive below enough =
    if-cases (λ r. r < ways) (ltb node ways) _ _
      (λ inner.
        if-cases (λ r. r < ways) (get_or bits node 0 == 0) _ _
          (λ _. victim_path-lt fuel bits ways (node * 2) (omega arith) (ground arith) (omega arith))
          (λ _.
            victim_path-lt fuel bits ways (node * 2 + 1) (omega arith) (ground arith)
              (omega arith)))
      (λ _. omega arith)

-- Under every policy the victim is one of the ways.
victim-lt : (s : ReplacementState) → 1 ≤ s.ways → victim s < s.ways
unfolding victim
victim-lt s h =
    if-cases (λ r. r < s.ways) (by_tick s.policy) _ _
      (λ _. omega (arith, oldest_from-range s.lru (s.ways - 1) 1 0))
      (λ _. victim_path-lt s.ways s.plru s.ways 1 (omega arith) (omega arith) (omega arith))

-- What touch keeps for LRU and NMRU: a tick for each way, none later than the clock.
pub record IsTimed (s : ReplacementState) : Type 0 where
  pub timed : by_tick s.policy ≡ true
  pub size : length s.lru ≡ s.ways
  pub past : (w : ℕ) → get_or s.lru w 0 ≤ s.tick

pub touch-IsTimed :
    (s : ReplacementState) (way : ℕ) → way < s.ways → IsTimed s → IsTimed (touch s way)
unfolding touch
touch-IsTimed s way h v = rw (v.timed) (record {
  timed = v.timed;
  size = ground (arith, length-set s.lru way (s.tick + 1), v.size);
  past = λ w. ground (arith, get_or-set s.lru way w (s.tick + 1) 0, v.past w, v.size);
})

-- With LRU or NMRU no way was touched less recently than the victim.
victim-least :
    (s : ReplacementState)
    → by_tick s.policy ≡ true
    → (j : ℕ) → j < s.ways
    → get_or s.lru (victim s) 0 ≤ get_or s.lru j 0
unfolding victim
victim-least s timed j below =
    subst
      (λ b.
        get_or s.lru
          (if b then oldest_from s.lru (s.ways - 1) 1 0 else victim_path s.ways s.plru s.ways 1) 0
        ≤ get_or s.lru j 0)
      (sym timed) (oldest_from-least s.lru (s.ways - 1) 1 0 j (ground arith))

touch-lru :
    (s : ReplacementState) (way : ℕ)
    → by_tick s.policy ≡ true
    → ((touch s way).lru ≡ set s.lru way (s.tick + 1)) × ((touch s way).ways ≡ s.ways)
unfolding touch
touch-lru s way timed = rw timed (refl, refl)

-- With LRU or NMRU and at least two ways, the way that was touched last is never the victim, and no
-- way was touched less recently than the victim.
pub victim-touch :
    (s : ReplacementState) (way : ℕ)
    → IsTimed s
    → way < s.ways
    → 2 ≤ s.ways
    → let t = touch s way in
      (victim t ≢ way) × ((j : ℕ) → j < s.ways → get_or t.lru (victim t) 0 ≤ get_or t.lru j 0)
victim-touch s way v h two =
    let t = touch s way in
    let shape = touch-lru s way v.timed in
    let least : (j : ℕ) → j < s.ways → get_or t.lru (victim t) 0 ≤ get_or t.lru j 0 =
      λ j below. victim-least t (touch-IsTimed s way h v).timed j (omega (arith, shape.1)) in
    let other : ℕ = if way == 0 then 1 else 0 in
    let newest : get_or t.lru way 0 ≡ suc s.tick =
      rw (shape.0)
        (ground (arith, get_or-set s.lru way way (s.tick + 1) 0 (omega (arith, v.size)))) in
    let older : get_or t.lru other 0 ≤ s.tick = rw (shape.0) (
      ground
        (arith, get_or-set s.lru way other (s.tick + 1) 0 (omega (arith, v.size)), v.past other)) in
    let oldest : get_or t.lru (victim t) 0 ≤ get_or t.lru other 0 = least other (ground arith) in
    ((λ same. omega (arith, ap (λ w. get_or t.lru w 0) same, newest, older, oldest)), least)
