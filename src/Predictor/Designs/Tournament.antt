-- ===== src/Predictor/Designs/Tournament.antt =====
-- src/component/predictor/implementations/tournament.cpp.
use Prim.Native.Nat.{bit_and, bit_xor}
use risc_e.Base.{
  ℕ, ◌-◌, ◌^◌, Bool, true, Option, none, some, List, length, get_or, set, replicate, ◌||◌, ltb, xor,
  if◌then◌else◌,
}
use risc_e.Base.Word.{◌>>>◌}
use risc_e.Predictor.{BranchPredictor}
use risc_e.Predictor.Context.{BranchContext, Prediction, Resolution, is_jal, is_conditional_branch}
use risc_e.Predictor.Counter.{
  train, saturating_increment, saturating_decrement, counter_is_taken, predict_taken_or_fallthrough,
}
use risc_e.Predictor.Calls.{predict_call_return, resolve_call_return}
use risc_e.Predictor.Designs.Gshare.{shift_history}
use risc_e.Predictor.Stack
use risc_e.Predictor.Stack.{ReturnAddressStack}

pub record Tournament : Type 0 where
  pub history_bits : ℕ
  pub global_history : ℕ
  pub history_mask : ℕ
  pub local_history : List ℕ
  pub local_pht : List ℕ
  pub global_pht : List ℕ
  pub choice_pht : List ℕ
  pub ras : ReturnAddressStack

unfoldable pub configure : ℕ → ℕ → ReturnAddressStack → Option Tournament
configure history_bits global_history ras =
    let size = 2 ^ history_bits in
    if ltb history_bits 1 || ltb 16 history_bits
    then none
    else some (record {
      history_bits = history_bits;
      global_history = global_history;
      history_mask = 2 ^ history_bits - 1;
      local_history = replicate size 0;
      local_pht = replicate size 2;
      global_pht = replicate size 2;
      choice_pht = replicate size 2;
      ras = ras;
    })

unfoldable pub new : ℕ → ℕ → Option Tournament
unfolding configure
new history_bits ras_depth = configure history_bits 0 (Stack.new ras_depth)

unfoldable pub local_index : Tournament → ℕ → ℕ
local_index s pc = bit_and (bit_xor pc (pc >>> 4)) (length s.local_history - 1)

-- `local_history_[local_index(pc)] & history_mask_`.
unfoldable pub local_hist : Tournament → ℕ → ℕ
unfolding local_index
local_hist s pc = bit_and (get_or s.local_history (local_index s pc) 0) s.history_mask

unfoldable pub predict : Tournament → BranchContext → Prediction
predict s ctx =
    if is_jal ctx
    then predict_taken_or_fallthrough ctx true
    else if is_conditional_branch ctx
    then predict_taken_or_fallthrough ctx (
        if counter_is_taken (get_or s.choice_pht s.global_history 0)
        then counter_is_taken (get_or s.local_pht (local_hist s ctx.pc) 0)
        else counter_is_taken (get_or s.global_pht s.global_history 0))
    else predict_call_return ctx s.ras

-- Only where the two components disagree is the choice adjusted, and the winner is rewarded.
unfoldable pub adjust_choice : Bool → Bool → Bool → ℕ → ℕ
adjust_choice local_taken global_taken taken choice =
    if xor local_taken global_taken
    then if xor local_taken taken then saturating_decrement choice else saturating_increment choice
    else choice

unfoldable pub resolve : Tournament → BranchContext → Resolution → Tournament
resolve s ctx res =
    let li = local_index s ctx.pc in
    let hist = local_hist s ctx.pc in
    let g = s.global_history in
    let local_taken = counter_is_taken (get_or s.local_pht hist 0) in
    let global_taken = counter_is_taken (get_or s.global_pht g 0) in
    if is_conditional_branch ctx
    then record s {
      local_pht = set s.local_pht hist (train res.taken (get_or s.local_pht hist 0));
      global_pht = set s.global_pht g (train res.taken (get_or s.global_pht g 0));
      choice_pht =
          set s.choice_pht g
            (adjust_choice local_taken global_taken res.taken (get_or s.choice_pht g 0));
      local_history =
          set s.local_history li
            (shift_history s.history_mask (get_or s.local_history li 0) res.taken);
      global_history = shift_history s.history_mask g res.taken;
    }
    else record s { ras = resolve_call_return ctx res s.ras }

unfoldable pub reset : Tournament → Tournament
reset s = record s {
  local_history = replicate (length s.local_history) 0;
  local_pht = replicate (length s.local_pht) 2;
  global_pht = replicate (length s.global_pht) 2;
  choice_pht = replicate (length s.choice_pht) 2;
  global_history = 0;
  ras = Stack.reset s.ras;
}

abbrev pub predictor : BranchPredictor
predictor = record { State = Tournament; predict = predict; resolve = resolve; reset = reset }
