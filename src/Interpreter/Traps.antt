-- ===== src/Interpreter/Traps.antt =====
-- How the interpreter takes the calls of its trap sink: raise_trap and handle_trap of
-- src/interpreter/interpreter.cpp.
use risc_e.Base.{◌≡◌, refl, List, [], ◌∷◌, All, ◌∙◌, ap, sym}
use risc_e.Cpu.Trap.{Trap}
use risc_e.Memory.Faults.{IsFault}
use risc_e.Predictor.{BranchPredictor}
use risc_e.Interpreter.Machine.{
  Interpreter, enter_trap, halt_on_trap, raise_fault_trap, raise_trap, handle_trap, deliver,
}

module _ {p : BranchPredictor} where
  raise_trap-fault :
      (i : Interpreter p) (t : Trap)
      → IsFault t
      → raise_trap i t.cause t.value ≡ raise_fault_trap i t
  unfolding raise_trap handle_trap enter_trap raise_fault_trap halt_on_trap
  raise_trap-fault i t h = rw (h, raise_fault_trap)

  -- raise_trap, for each call in order.
  abbrev pub raise_each : Interpreter p → List Trap → Interpreter p
  raise_each i [] = i
  raise_each i (t ∷ ts) = raise_each (raise_trap i t.cause t.value) ts

  -- Taking the calls of a memory operation, none of which is an environment call, is raise_trap for
  -- each call in order.
  deliver-raise_each :
      (i : Interpreter p) (ts : List Trap) → All IsFault ts → deliver i ts ≡ raise_each i ts
  unfolding deliver
  deliver-raise_each i [] h = refl
  deliver-raise_each i (t ∷ ts) h =
      deliver-raise_each (raise_fault_trap i t) ts h.1
      ∙ ap (λ j. raise_each j ts) (sym (raise_trap-fault i t h.0))
