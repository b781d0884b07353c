-- ===== src/Predictor/Designs/AlwaysNotTaken.antt =====
-- src/component/predictor/implementations/always_not_taken.cpp: no state.
use risc_e.Base.{some, if◌then◌else◌}
use risc_e.Predictor.{BranchPredictor}
use risc_e.Predictor.Context.{
  BranchContext, Prediction, Resolution, is_jal, direct_target, fallthrough_pc,
}

pub predict : Unit {0} → BranchContext → Prediction
predict s ctx =
    if is_jal ctx
    then record { next_pc = direct_target ctx }
    else record { next_pc = some (fallthrough_pc ctx) }

pub resolve : Unit {0} → BranchContext → Resolution → Unit {0}
resolve s ctx res = s

abbrev pub predictor : BranchPredictor
predictor = record { State = Unit {0}; predict = predict; resolve = resolve; reset = λ s. s }
