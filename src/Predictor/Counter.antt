-- ===== src/Predictor/Counter.antt =====
-- Two-bit saturating counters, and the helpers that every design shares, of
-- include/risc-e/component/predictor/branch_predictor.hpp.
use risc_e.Base.{ℕ, ◌+◌, ◌-◌, ◌<◌, ◌≡◌, arith, Bool, not, zero, suc, ltb, leb, some, if◌then◌else◌}
use risc_e.Predictor.Context.{BranchContext, Prediction, fallthrough_pc, direct_target}

unfoldable pub saturating_increment : ℕ → ℕ
saturating_increment c = if ltb c 3 then c + 1 else 3

unfoldable pub saturating_decrement : ℕ → ℕ
saturating_decrement c = if ltb 0 c then c - 1 else 0

unfoldable pub counter_is_taken : ℕ → Bool
counter_is_taken c = leb 2 c

-- The update by an outcome, as every design writes it.
abbrev pub train : Bool → ℕ → ℕ
train taken c = if taken then saturating_increment c else saturating_decrement c

unfoldable pub predict_taken_or_fallthrough : BranchContext → Bool → Prediction
predict_taken_or_fallthrough ctx taken =
    if taken
    then record { next_pc = direct_target ctx }
    else record { next_pc = some (fallthrough_pc ctx) }

abbrev pub IsCounter : ℕ → Type 0
IsCounter c = c < 4

pub train-IsCounter : (taken : Bool) (c : ℕ) → IsCounter c → IsCounter (train taken c)
unfolding saturating_increment saturating_decrement
train-IsCounter taken c h = ground arith

-- The same outcome `n` times.
abbrev pub train_n : ℕ → Bool → ℕ → ℕ
train_n zero taken c = c
train_n (suc n) taken c = train_n n taken (train taken c)

-- Two outcomes of one kind decide the prediction, and one outcome of the other kind after three does
-- not change it.
pub counter_hysteresis :
    (taken : Bool) (c : ℕ)
    → IsCounter c
    → (counter_is_taken (train_n 2 taken c) ≡ taken)
      × (counter_is_taken (train (not taken) (train_n 3 taken c)) ≡ taken)
unfolding saturating_increment saturating_decrement counter_is_taken
counter_hysteresis taken c h = ground arith
