-- ===== src/Predictor/Nesting.antt =====
-- The return-address stack on properly nested calls: as long as the nesting fits its depth, every
-- return is predicted and the stack is left as it was.
use risc_e.Base.{
  ℕ, suc, ◌+◌, ◌≤◌, ◌<◌, ◌≡◌, refl, ap, arith, true, false, none, some, List, [], ◌∷◌, ◌++◌, length,
  ◌==◌, if◌then◌else◌,
}
use risc_e.Base.Word.{add32}
use risc_e.Predictor.Context.{BranchContext, Resolution, is_call, is_return}
use risc_e.Predictor.Stack
use risc_e.Predictor.Stack.{ReturnAddressStack, pop-push, pop-peek, push_room}
use risc_e.Predictor.Calls.{
  predict_call_return, resolve_call_return, not-call_of_return, resolve-call, resolve-return_hit,
}

abbrev pub Event : Type 0
Event = BranchContext × Resolution

-- 1 for a return whose predicted address is not the actual one.
pub missed : ReturnAddressStack → Event → ℕ
missed ras (ctx, res) =
    if is_return ctx
    then (elim (predict_call_return ctx ras).next_pc [
      | none ↦ 1
      | some target ↦ if target == res.next_pc then 0 else 1
    ])
    else 0

-- The stack after a history, and how many returns were mispredicted.
pub run_calls : ReturnAddressStack → List Event → ReturnAddressStack × ℕ
run_calls ras [] = (ras, 0)
run_calls ras ((ctx, res) ∷ es) =
    let rest = run_calls (resolve_call_return ctx res ras) es in
    (rest.0, missed ras (ctx, res) + rest.1)

-- Histories in which each return goes back behind its call, nested at most `d` deep.
pub data Balanced : ℕ → List Event → Type 0 where
  nil : {d : ℕ} → Balanced d []
  other :
      {d : ℕ} {rest : List Event} (ctx : BranchContext) (res : Resolution)
      → is_call ctx ≡ false
      → is_return ctx ≡ false
      → Balanced d rest
      → Balanced d ((ctx, res) ∷ rest)
  nest :
      {d : ℕ} {inner rest : List Event} (call : BranchContext) (called : Resolution)
      (return : BranchContext) (returned : Resolution)
      → is_call call ≡ true
      → is_return return ≡ true
      → returned.next_pc ≡ add32 call.pc 4
      → Balanced d inner
      → Balanced (suc d) rest
      → Balanced (suc d) ((call, called) ∷ (inner ++ (return, returned) ∷ rest))

run_calls-append :
    (ras : ReturnAddressStack) (xs ys : List Event)
    → run_calls ras (xs ++ ys) ≡ (
      (run_calls (run_calls ras xs).0 ys).0,
      (run_calls ras xs).1 + (run_calls (run_calls ras xs).0 ys).1,
    )
unfolding run_calls
run_calls-append ras [] ys = ground arith
run_calls-append ras ((ctx, res) ∷ xs) ys =
    ground (arith, run_calls-append (resolve_call_return ctx res ras) xs ys)

missed-return_hit :
    (ctx : BranchContext) (res : Resolution) (ras : ReturnAddressStack)
    → is_return ctx ≡ true
    → (Stack.pop ras).1 ≡ some res.next_pc
    → missed ras (ctx, res) ≡ 0
unfolding missed predict_call_return
missed-return_hit ctx res ras h e = ground (arith, pop-peek ras)

missed-call :
    (ctx : BranchContext) (res : Resolution) (ras : ReturnAddressStack)
    → is_call ctx ≡ true
    → missed ras (ctx, res) ≡ 0
unfolding missed
missed-call ctx res ras h = ground (arith, not-call_of_return ctx)

-- A return after its call: the prediction is right and the stack is as before the call.
return_step :
    (ras : ReturnAddressStack) (call return : BranchContext) (called returned : Resolution)
    → length ras.entries < ras.depth
    → is_call call ≡ true
    → is_return return ≡ true
    → returned.next_pc ≡ add32 call.pc 4
    → (missed (resolve_call_return call called ras) (return, returned) ≡ 0)
      × (resolve_call_return return returned (resolve_call_return call called ras) ≡ ras)
      × (missed ras (call, called) ≡ 0)
return_step ras call return called returned room c r back =
    let popped : Stack.pop (Stack.push ras (add32 call.pc 4)) ≡ (ras, some returned.next_pc) =
      rw back (pop-push ras (add32 call.pc 4) room) in
    rw (resolve-call call called ras c) (
      missed-return_hit return returned _ r (ap (λ p. p.1) popped),
      resolve-return_hit return returned _ ras r popped,
      missed-call call called ras c,
    )

missed-other :
    (ctx : BranchContext) (res : Resolution) (ras : ReturnAddressStack)
    → is_return ctx ≡ false
    → missed ras (ctx, res) ≡ 0
unfolding missed
missed-other ctx res ras h = rw h

resolve-other :
    (ctx : BranchContext) (res : Resolution) (ras : ReturnAddressStack)
    → is_call ctx ≡ false
    → is_return ctx ≡ false
    → resolve_call_return ctx res ras ≡ ras
unfolding resolve_call_return
resolve-other ctx res ras c r = rw (c, r)

after_call :
    (ras : ReturnAddressStack) (call : BranchContext) (called : Resolution) (d : ℕ)
    → is_call call ≡ true
    → length ras.entries + suc d ≤ ras.depth
    → length (resolve_call_return call called ras).entries + d
      ≤ (resolve_call_return call called ras).depth
after_call ras call called d c room =
    rw (resolve-call call called ras c)
      (omega (arith, push_room ras (add32 call.pc 4) (omega arith)))

-- Properly nested calls: while the nesting fits in what is left of the stack, no return is
-- mispredicted and the stack comes back as it was.
pub run_calls-Balanced :
    {d : ℕ} {es : List Event} (ras : ReturnAddressStack)
    → Balanced d es
    → length ras.entries + d ≤ ras.depth
    → run_calls ras es ≡ (ras, 0)
unfolding run_calls
run_calls-Balanced ras nil room = refl
run_calls-Balanced ras (other {rest = rest} ctx res c r more) room =
    rw (resolve-other ctx res ras c r, missed-other ctx res ras r, run_calls-Balanced ras more room)
run_calls-Balanced ras
      (nest {d = d} {inner = inner} {rest = rest} call called return returned c r back nested more)
      room =
    let step = return_step ras call return called returned (omega arith) c r back in
    let inside =
      run_calls-Balanced (resolve_call_return call called ras) nested
        (after_call ras call called d c room) in
    rw (
      run_calls-append (resolve_call_return call called ras) inner ((return, returned) ∷ rest),
      inside,
      step.1,
      step.0,
      step.2,
      run_calls-Balanced ras more room,
    )
