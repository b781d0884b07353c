-- ===== src/Interpreter/Outcomes.antt =====
-- The two ways in which an instruction of src/interpreter/interpreter.cpp ends, written out on the
-- fields of the state: the trap that halts the machine, and the write of rd before the next
-- instruction.
use risc_e.Base.{ℕ, ◌+◌, ◌≡◌, refl, false, update, ◌==◌, if◌then◌else◌, Bool-cases, inl, inr}
use risc_e.Base.Word.{u32}
use risc_e.Cpu.Trap.{TrapCause, Trap, code}
use risc_e.Cpu.State.{HaltReason}
use risc_e.Predictor.{BranchPredictor}
use risc_e.Decoder.{DecodedInstruction}
use risc_e.Interpreter.Machine.{
  Interpreter, write_register, raise_fault_trap, halt_on_trap, enter_trap, raise_trap, handle_trap,
}
use risc_e.Interpreter.Execute.{advance, retire, illegal}

module _ {p : BranchPredictor} where
  -- The machine stops, and the trap registers name the cause, the value and the instruction. The
  -- registers, the program counter and everything else stay.
  abbrev pub halted : Interpreter p → TrapCause → ℕ → Interpreter p
  halted i cause value = record i {
    cpu = record (i.cpu) {
      running = false;
      halt_reason = HaltReason.trap;
      mepc = i.cpu.pc;
      mcause = code cause;
      mtval = value;
    };
  }

  -- Register rd, unless it is register 0, holds the result, and the program counter is four further.
  abbrev pub retired : Interpreter p → ℕ → ℕ → Interpreter p
  retired i rd result = record i {
    cpu = record (i.cpu) {
      x = if rd == 0 then i.cpu.x else update i.cpu.x rd result;
      pc = u32 (i.cpu.pc + 4);
    };
  }

  pub raise_fault_trap-halted :
      (i : Interpreter p) (t : Trap) → raise_fault_trap i t ≡ halted i t.cause t.value
  unfolding raise_fault_trap halt_on_trap enter_trap
  raise_fault_trap-halted i t = refl

  pub illegal-halted :
      (i : Interpreter p) (d : DecodedInstruction)
      → illegal i d ≡ halted i TrapCause.illegal_instruction d.raw
  unfolding illegal raise_trap handle_trap halt_on_trap enter_trap
  illegal-halted i d = refl

  pub retire-retired :
      (i : Interpreter p) (rd result : ℕ) → retire i rd result ≡ retired i rd result
  unfolding retire advance write_register
  retire-retired i rd result = elim (Bool-cases (rd == 0)) [
    | inl zero ↦ rw zero refl
    | inr other ↦ rw other refl
  ]
