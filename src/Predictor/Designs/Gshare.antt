-- ===== src/Predictor/Designs/Gshare.antt =====
-- src/component/predictor/implementations/gshare.cpp.
use Prim.Native.Nat.{bit_and, bit_or, bit_xor}
use risc_e.Base.{
  ℕ, ◌-◌, ◌^◌, Bool, true, Option, none, some, List, length, get_or, set, replicate, ◌||◌, ltb,
  if◌then◌else◌,
}
use risc_e.Base.Word.{u32, ◌<<<◌}
use risc_e.Predictor.{BranchPredictor}
use risc_e.Predictor.Context.{BranchContext, Prediction, Resolution, is_jal, is_conditional_branch}
use risc_e.Predictor.Counter.{train, counter_is_taken, predict_taken_or_fallthrough}
use risc_e.Predictor.Calls.{predict_call_return, resolve_call_return}
use risc_e.Predictor.Stack
use risc_e.Predictor.Stack.{ReturnAddressStack}

pub record Gshare : Type 0 where
  pub history_bits : ℕ
  pub global_history : ℕ
  pub history_mask : ℕ
  pub counters : List ℕ
  pub ras : ReturnAddressStack

-- A reconfiguration keeps the global history.
unfoldable pub configure : ℕ → ℕ → ReturnAddressStack → Option Gshare
configure history_bits global_history ras =
    if ltb history_bits 1 || ltb 16 history_bits
    then none
    else some (record {
      history_bits = history_bits;
      global_history = global_history;
      history_mask = 2 ^ history_bits - 1;
      counters = replicate (2 ^ history_bits) 2;
      ras = ras;
    })

unfoldable pub new : ℕ → ℕ → Option Gshare
unfolding configure
new history_bits ras_depth = configure history_bits 0 (Stack.new ras_depth)

unfoldable pub index : Gshare → ℕ → ℕ
index s pc = bit_and (bit_xor pc s.global_history) (length s.counters - 1)

-- `((history << 1) | (taken ? 1u : 0u)) & mask`, on 32 bits.
unfoldable pub shift_history : ℕ → ℕ → Bool → ℕ
shift_history mask history taken =
    bit_and (bit_or (u32 (history <<< 1)) (if taken then 1 else 0)) mask

unfoldable pub predict : Gshare → BranchContext → Prediction
predict s ctx =
    if is_jal ctx
    then predict_taken_or_fallthrough ctx true
    else if is_conditional_branch ctx
    then predict_taken_or_fallthrough ctx (counter_is_taken (get_or s.counters (index s ctx.pc) 0))
    else predict_call_return ctx s.ras

unfoldable pub resolve : Gshare → BranchContext → Resolution → Gshare
resolve s ctx res =
    let i = index s ctx.pc in
    if is_conditional_branch ctx
    then record s {
      counters = set s.counters i (train res.taken (get_or s.counters i 0));
      global_history = shift_history s.history_mask s.global_history res.taken;
    }
    else record s { ras = resolve_call_return ctx res s.ras }

unfoldable pub reset : Gshare → Gshare
reset s = record s {
  counters = replicate (length s.counters) 2;
  global_history = 0;
  ras = Stack.reset s.ras;
}

abbrev pub predictor : BranchPredictor
predictor = record { State = Gshare; predict = predict; resolve = resolve; reset = reset }
