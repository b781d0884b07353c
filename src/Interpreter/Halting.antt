-- ===== src/Interpreter/Halting.antt =====
-- When the machine stops: the guards of step and run, and the fuel of the loop.
pub mod Exit
use risc_e.Base.{
  ℕ, zero, suc, ◌+◌, ◌≡◌, refl, arith, true, false, Option, none, some, if◌then◌else◌, Bool-cases,
  inl, inr, ◌∙◌, ap, sym,
}
use risc_e.Predictor.{BranchPredictor}
use risc_e.Interpreter.Machine.{Interpreter}
use risc_e.Interpreter.Run.{step, run_loop, exit_code, run}

module _ {p : BranchPredictor} where
  -- The state after `n` calls of step.
  abbrev pub step_n : ℕ → Interpreter p → Interpreter p
  step_n zero i = i
  step_n (suc n) i = step_n n (step i)

  -- A machine that has halted stays as it is, however often step is called.
  pub step_n-halted : (n : ℕ) (i : Interpreter p) → i.cpu.running ≡ false → step_n n i ≡ i
  unfolding step
  step_n-halted zero i h = refl
  step_n-halted (suc n) i h = ap (step_n n) (rw h) ∙ step_n-halted n i h

  run_loop-halted :
      (fuel : ℕ) (i : Interpreter p) → i.cpu.running ≡ false → run_loop fuel i ≡ some i
  unfolding run_loop
  run_loop-halted zero i h = rw h
  run_loop-halted (suc fuel) i h = rw h

  run_loop-running :
      (fuel : ℕ) (i : Interpreter p)
      → i.cpu.running ≡ true
      → run_loop (suc fuel) i ≡ run_loop fuel (step i)
  unfolding run_loop
  run_loop-running fuel i h =
      ap (λ running. elim running [ true ↦ run_loop fuel (step i) | false ↦ some i ]) h

  step_n-stopped :
      (n : ℕ) (i : Interpreter p)
      → i.cpu.running ≡ false
      → (if (step_n n i).cpu.running then none else some (step_n n i)) ≡ some i
  step_n-stopped n i h =
      ap (λ j. if j.cpu.running then none else some j) (step_n-halted n i h)
      ∙ ap (λ b. if b then none else some i) h

  -- The loop with fuel is the iteration of step: it gives a state exactly when that many steps reach
  -- a halted machine, and then gives the state that they reach.
  run_loop-step_n :
      (fuel : ℕ) (i : Interpreter p)
      → run_loop fuel i ≡ (if (step_n fuel i).cpu.running then none else some (step_n fuel i))
  unfolding run_loop
  run_loop-step_n zero i = refl
  run_loop-step_n (suc fuel) i = elim (Bool-cases i.cpu.running) [
    | inl e ↦ run_loop-running fuel i e ∙ run_loop-step_n fuel (step i)
    | inr e ↦ run_loop-halted (suc fuel) i e ∙ sym (step_n-stopped (suc fuel) i e)
  ]

  pub step_n-add : (n k : ℕ) (i : Interpreter p) → step_n (n + k) i ≡ step_n k (step_n n i)
  step_n-add zero k i = ap (λ m. step_n m i) zero_add
    where
      zero_add : 0 + k ≡ k
      zero_add = omega arith
  step_n-add (suc n) k i = ap (λ m. step_n m i) suc_add ∙ step_n-add n k (step i)
    where
      suc_add : suc n + k ≡ suc (n + k)
      suc_add = omega arith

  -- If `n` steps reach a halted machine, then run returns with fuel `n` or more, always in that
  -- state and with its exit code: the fuel decides nothing else.
  pub run_halts :
      (n k : ℕ) (i : Interpreter p)
      → (step_n n i).cpu.running ≡ false
      → run (n + k) i ≡ some (step_n n i, exit_code (step_n n i))
  unfolding run
  run_halts n k i h =
      let stays = step_n-add n k i ∙ step_n-halted k (step_n n i) h in
      ap finish (
        run_loop-step_n (n + k) i
        ∙ ap (λ j. if j.cpu.running then none else some j) stays
        ∙ ap (λ b. if b then none else some (step_n n i)) h)
    where
      finish : Option (Interpreter p) → Option (Interpreter p × Option ℕ)
      finish none = none
      finish (some j) = some (j, exit_code j)
