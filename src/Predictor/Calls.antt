-- ===== src/Predictor/Calls.antt =====
-- Calls and returns through the return-address stack, of
-- include/risc-e/component/predictor/branch_predictor.hpp.
use risc_e.Base.{ℕ, ◌≡◌, arith, true, false, ==_refl, Option, none, some, not, ◌==◌, if◌then◌else◌}
use risc_e.Base.Word.{add32}
use risc_e.Predictor.Context.{
  BranchContext, Prediction, Resolution, is_call, is_return, fallthrough_pc,
}
use risc_e.Predictor.Stack
use risc_e.Predictor.Stack.{ReturnAddressStack, IsBounded, push-IsBounded, pop-IsBounded}

unfoldable pub predict_call_return : BranchContext → ReturnAddressStack → Prediction
predict_call_return ctx ras =
    let other : Prediction = record { next_pc = some (fallthrough_pc ctx) } in
    if is_return ctx
    then (elim (Stack.peek ras) [ none ↦ other | some target ↦ record { next_pc = some target } ])
    else other

-- A return pops, and pushes the actual target again when the prediction missed.
repair : Resolution → ReturnAddressStack × Option ℕ → ReturnAddressStack
repair res (ras, none) = ras
repair res (ras, some predicted) =
    if not (predicted == res.next_pc) then Stack.push ras res.next_pc else ras

unfoldable pub resolve_call_return :
    BranchContext → Resolution → ReturnAddressStack → ReturnAddressStack
unfolding repair
resolve_call_return ctx res ras =
    if is_call ctx
    then Stack.push ras (add32 ctx.pc 4)
    else if is_return ctx
    then repair res (Stack.pop ras)
    else ras

pub resolve_call_return-IsBounded :
    (ctx : BranchContext) (res : Resolution) (ras : ReturnAddressStack)
    → IsBounded ras
    → IsBounded (resolve_call_return ctx res ras)
unfolding resolve_call_return
resolve_call_return-IsBounded ctx res ras h = ground (
  arith,
  push-IsBounded ras (add32 ctx.pc 4),
  pop-IsBounded ras,
  push-IsBounded (Stack.pop ras).0 res.next_pc,
)

-- A return is never a call as well.
pub not-call_of_return : (ctx : BranchContext) → is_return ctx ≡ true → is_call ctx ≡ false
unfolding is_return is_call
not-call_of_return ctx h = ground arith

pub resolve-call :
    (ctx : BranchContext) (res : Resolution) (ras : ReturnAddressStack)
    → is_call ctx ≡ true
    → resolve_call_return ctx res ras ≡ Stack.push ras (add32 ctx.pc 4)
unfolding resolve_call_return
resolve-call ctx res ras h = rw h

-- A return whose target is the popped address leaves the popped stack.
pub resolve-return_hit :
    (ctx : BranchContext) (res : Resolution) (ras rest : ReturnAddressStack)
    → is_return ctx ≡ true
    → Stack.pop ras ≡ (rest, some res.next_pc)
    → resolve_call_return ctx res ras ≡ rest
unfolding resolve_call_return
resolve-return_hit ctx res ras rest h e = rw (not-call_of_return ctx h, h, e, ==_refl res.next_pc)
