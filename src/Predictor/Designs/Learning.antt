-- ===== src/Predictor/Designs/Learning.antt =====
-- Construction, bounds of every table access, and what the designs learn.
use Prim.Native.Nat.{bit_and, bit_xor}
use native.Mathlib.Nat.{one-le-pow}
use risc_e.Base.{
  ℕ, ◌-◌, ◌/◌, ◌^◌, ◌≤◌, ◌<◌, ◌≡◌, refl, arith, true, Option, none, some, length, get_or,
  get_or-set, length-set, length-replicate, All-replicate, ltb, ◌||◌, ◌∙◌, ap, ◌⊎◌, All-get_or,
  Bool-cases, inl, inr, ==_refl,
}
use risc_e.Base.Bits.{bit_and-le}
use risc_e.Predictor.Context.{BranchContext, Resolution, is_conditional_branch, not-jal_of_branch}
use risc_e.Predictor.Counter.{
  IsCounter, train, counter_is_taken, predict_taken_or_fallthrough, counter_hysteresis,
}
use risc_e.Predictor.Stack
use risc_e.Predictor.Stack.{ReturnAddressStack, IsBounded}
use risc_e.Predictor.Designs.TwoBit
use risc_e.Predictor.Designs.TwoBit.{TwoBit}
use risc_e.Predictor.Designs.Tournament
use risc_e.Predictor.Designs.Tournament.{Tournament}
use risc_e.Predictor.Designs.Validity.{
  IsTwoBit, resolve-IsTwoBit, IsTournament, fresh-IsTable, index-lt_two_bit,
}

-- Every table access of the tournament predictor is within its table.
tournament_accesses :
    (s : Tournament) (pc : ℕ)
    → IsTournament s
    → (Tournament.local_index s pc < length s.local_history)
      × (Tournament.local_hist s pc < length s.local_pht)
      × (s.global_history < length s.global_pht)
      × (s.global_history < length s.choice_pht)
unfolding Tournament.local_index Tournament.local_hist
tournament_accesses s pc v =
    let positive = one-le-pow s.history_bits 2 (omega arith) in
    (
      omega
          (arith, bit_and-le (bit_xor pc (pc / 2 ^ 4)) (length s.local_history - 1), v.local_size),
      omega (
        arith,
        bit_and-le (get_or s.local_history (Tournament.local_index s pc) 0) s.history_mask,
        v.mask,
        v.local_table.0,
      ),
      omega (arith, v.history, v.global_table.0),
      omega (arith, v.history, v.choice_table.0),
    )

new-IsBounded : (depth : ℕ) → IsBounded (Stack.new depth)
unfolding Stack.new
new-IsBounded depth = omega arith

-- What `new` may return for a number of history bits.
abbrev pub IsBuilt : ℕ → Option Tournament → Type 0
IsBuilt bits none = (bits < 1) ⊎ (16 < bits)
IsBuilt bits (some s) = (1 ≤ bits) × (bits ≤ 16) × IsTournament s

-- A tournament predictor is built exactly for 1 to 16 history bits, and starts valid.
new-IsTournament : (bits depth : ℕ) → IsBuilt bits (Tournament.new bits depth)
unfolding Tournament.new
new-IsTournament bits depth = elim (Bool-cases (ltb bits 1 || ltb 16 bits)) [
  | inl bad ↦ rw bad (ground arith)
  | inr good ↦ rw good (
    ground arith,
    ground arith,
    record {
      bits = ground arith;
      mask = refl;
      history = one-le-pow bits 2 (omega arith);
      local_size = length-replicate (2 ^ bits) 0;
      local_entries =
          All-replicate (λ h. h < 2 ^ bits) (2 ^ bits) 0 (one-le-pow bits 2 (omega arith));
      local_table = fresh-IsTable (2 ^ bits);
      global_table = fresh-IsTable (2 ^ bits);
      choice_table = fresh-IsTable (2 ^ bits);
      bounded = new-IsBounded depth;
    },
  )
]

index_of_length :
    (s t : TwoBit) (pc : ℕ)
    → length s.counters ≡ length t.counters
    → TwoBit.index s pc ≡ TwoBit.index t pc
unfolding TwoBit.index
index_of_length s t pc e =
    ap (λ (n : ℕ). bit_and (bit_xor (bit_xor pc (pc / 2 ^ 4)) (pc / 2 ^ 8)) (n - 1)) e

-- The counter that a context uses, after one update by the two-bit predictor.
counter_after :
    (s : TwoBit) (ctx : BranchContext) (res : Resolution)
    → IsTwoBit s
    → is_conditional_branch ctx ≡ true
    → let s' = TwoBit.resolve s ctx res in
      (TwoBit.index s' ctx.pc ≡ TwoBit.index s ctx.pc)
      × (get_or s'.counters (TwoBit.index s ctx.pc) 0
          ≡ train res.taken (get_or s.counters (TwoBit.index s ctx.pc) 0))
counter_after s ctx res v b =
    unfold TwoBit.resolve in
    rw b (
      index_of_length _ s ctx.pc (length-set s.counters (TwoBit.index s ctx.pc) _),
      get_or-set s.counters (TwoBit.index s ctx.pc) (TwoBit.index s ctx.pc) _ 0
            (index-lt_two_bit s ctx.pc v)
          ∙ rw (==_refl (TwoBit.index s ctx.pc)),
    )

-- What the two-bit predictor says about a conditional branch.
predict_branch :
    (s : TwoBit) (ctx : BranchContext)
    → is_conditional_branch ctx ≡ true
    → TwoBit.predict s ctx
      ≡ predict_taken_or_fallthrough ctx
          (counter_is_taken (get_or s.counters (TwoBit.index s ctx.pc) 0))
unfolding TwoBit.predict
predict_branch s ctx b = rw (not-jal_of_branch ctx b, b)

-- After a conditional branch went the same way twice, the two-bit predictor predicts that way, from
-- every valid state.
two_bit_learns :
    (s : TwoBit) (ctx : BranchContext) (res : Resolution)
    → IsTwoBit s
    → is_conditional_branch ctx ≡ true
    → TwoBit.predict (TwoBit.resolve (TwoBit.resolve s ctx res) ctx res) ctx
      ≡ predict_taken_or_fallthrough ctx res.taken
two_bit_learns s ctx res v b =
    let once = counter_after s ctx res v b in
    let twice = counter_after (TwoBit.resolve s ctx res) ctx res (resolve-IsTwoBit s ctx res v) b in
    predict_branch _ ctx b
    ∙ ap (predict_taken_or_fallthrough ctx) (
        ground (
          arith,
          once,
          twice,
          counter_hysteresis res.taken (get_or s.counters (TwoBit.index s ctx.pc) 0),
          All-get_or IsCounter s.counters (TwoBit.index s ctx.pc) 0 v.table.1,
        ))
