-- ===== src/Predictor/Designs/Ras.antt =====
-- src/component/predictor/implementations/ras.cpp: the return-address stack alone.
use risc_e.Base.{true, if◌then◌else◌}
use risc_e.Predictor.{BranchPredictor}
use risc_e.Predictor.Context.{BranchContext, Prediction, Resolution, is_jal}
use risc_e.Predictor.Counter.{predict_taken_or_fallthrough}
use risc_e.Predictor.Calls.{predict_call_return, resolve_call_return}
use risc_e.Predictor.Stack
use risc_e.Predictor.Stack.{ReturnAddressStack}

pub predict : ReturnAddressStack → BranchContext → Prediction
predict ras ctx =
    if is_jal ctx then predict_taken_or_fallthrough ctx true else predict_call_return ctx ras

pub resolve : ReturnAddressStack → BranchContext → Resolution → ReturnAddressStack
resolve ras ctx res = resolve_call_return ctx res ras

abbrev pub predictor : BranchPredictor
predictor = record {
  State = ReturnAddressStack;
  predict = predict;
  resolve = resolve;
  reset = Stack.reset;
}
