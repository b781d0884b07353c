-- ===== src/DCache/Replacement.antt =====
-- The replacement policies: src/component/dcache/replacement.cpp and
-- include/risc-e/component/dcache/replacement.hpp.
-- The loops halve a mask or double a node: the fuel is the number of ways, which both reach first.
pub mod Victims
use Prim.Native.Nat.{bit_and}
use risc_e.Base.{
  ℕ, zero, suc, ◌+◌, ◌-◌, ◌*◌, Bool, true, false, List, length, get_or, set, replicate, ltb, ◌==◌,
  if◌then◌else◌,
}
use risc_e.Base.Word.{◌>>>◌}

pub data ReplacementPolicy : Type 0 where
  lru plru nmru : ReplacementPolicy

abbrev pub by_tick : ReplacementPolicy → Bool
by_tick ReplacementPolicy.lru = true
by_tick ReplacementPolicy.plru = false
by_tick ReplacementPolicy.nmru = true

pub record ReplacementState : Type 0 where
  pub policy : ReplacementPolicy
  pub ways : ℕ
  pub lru : List ℕ
  pub plru : List ℕ
  pub tick : ℕ

unfoldable pub new : ℕ → ReplacementPolicy → ReplacementState
new ways policy = record {
  policy = policy;
  ways = ways;
  lru = if by_tick policy then replicate ways 0 else replicate 0 0;
  plru = if by_tick policy then replicate 0 0 else replicate ways 0;
  tick = 0;
}

-- The path from `node` down to `way`, by the bits of `way` under `mask`.
unfoldable pub touch_path : ℕ → List ℕ → ℕ → ℕ → ℕ → List ℕ
touch_path zero bits way node mask = bits
touch_path (suc fuel) bits way node mask =
    let left = touch_path fuel (set bits node 1) way (node * 2) (mask >>> 1) in
    let right = touch_path fuel (set bits node 0) way (node * 2 + 1) (mask >>> 1) in
    if mask == 0 then bits else if bit_and way mask == 0 then left else right

unfoldable pub touch : ReplacementState → ℕ → ReplacementState
touch s way =
    let tick = s.tick + 1 in
    if by_tick s.policy
    then record s { tick = tick; lru = set s.lru way tick }
    else record s { tick = tick; plru = touch_path s.ways s.plru way 1 (s.ways >>> 1) }

-- The scan for the smallest tick from index `i`, with `left` ways to go and the best so far.
unfoldable pub oldest_from : List ℕ → ℕ → ℕ → ℕ → ℕ
oldest_from ticks zero i best = best
oldest_from ticks (suc left) i best =
    oldest_from ticks left (i + 1)
      (if ltb (get_or ticks i 0) (get_or ticks best 0) then i else best)

-- The walk down the tree, following each node's preferred child.
unfoldable pub victim_path : ℕ → List ℕ → ℕ → ℕ → ℕ
victim_path zero bits ways node = node - ways
victim_path (suc fuel) bits ways node =
    let right = victim_path fuel bits ways (node * 2 + 1) in
    let left = victim_path fuel bits ways (node * 2) in
    if ltb node ways then (if get_or bits node 0 == 0 then left else right) else node - ways

unfoldable pub victim : ReplacementState → ℕ
victim s =
    if by_tick s.policy
    then oldest_from s.lru (s.ways - 1) 1 0
    else victim_path s.ways s.plru s.ways 1
