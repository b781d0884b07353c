-- ===== src/Predictor/Designs/TwoBit.antt =====
-- src/component/predictor/implementations/two_bit_saturating.cpp.
use Prim.Native.Nat.{bit_and, bit_xor}
use risc_e.Base.{
  ℕ, ◌-◌, true, Option, none, some, List, length, get_or, set, replicate, not, ◌||◌, ◌==◌,
  if◌then◌else◌,
}
use risc_e.Base.Word.{◌>>>◌}
use risc_e.Predictor.{BranchPredictor}
use risc_e.Predictor.Context.{BranchContext, Prediction, Resolution, is_jal, is_conditional_branch}
use risc_e.Predictor.Counter.{train, counter_is_taken, predict_taken_or_fallthrough}
use risc_e.Predictor.Calls.{predict_call_return, resolve_call_return}
use risc_e.Predictor.Stack
use risc_e.Predictor.Stack.{ReturnAddressStack}

pub record TwoBit : Type 0 where
  pub table_size : ℕ
  pub counters : List ℕ
  pub ras : ReturnAddressStack

unfoldable pub configure : ℕ → ReturnAddressStack → Option TwoBit
configure table_size ras =
    if table_size == 0 || not (bit_and table_size (table_size - 1) == 0)
    then none
    else some (record { table_size = table_size; counters = replicate table_size 2; ras = ras })

-- The constructor.
unfoldable pub new : ℕ → ℕ → Option TwoBit
unfolding configure
new table_size ras_depth = configure table_size (Stack.new ras_depth)

unfoldable pub index : TwoBit → ℕ → ℕ
index s pc = bit_and (bit_xor (bit_xor pc (pc >>> 4)) (pc >>> 8)) (length s.counters - 1)

unfoldable pub predict : TwoBit → BranchContext → Prediction
predict s ctx =
    if is_jal ctx
    then predict_taken_or_fallthrough ctx true
    else if is_conditional_branch ctx
    then predict_taken_or_fallthrough ctx (counter_is_taken (get_or s.counters (index s ctx.pc) 0))
    else predict_call_return ctx s.ras

unfoldable pub resolve : TwoBit → BranchContext → Resolution → TwoBit
resolve s ctx res =
    let i = index s ctx.pc in
    if is_conditional_branch ctx
    then record s { counters = set s.counters i (train res.taken (get_or s.counters i 0)) }
    else record s { ras = resolve_call_return ctx res s.ras }

-- `std::fill` with 2.
unfoldable pub reset : TwoBit → TwoBit
reset s = record s { counters = replicate (length s.counters) 2; ras = Stack.reset s.ras }

abbrev pub predictor : BranchPredictor
predictor = record { State = TwoBit; predict = predict; resolve = resolve; reset = reset }
