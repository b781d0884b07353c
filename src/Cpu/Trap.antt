-- ===== src/Cpu/Trap.antt =====
-- Trap causes and the calls that a component makes of `TrapSink::raise_trap`.
use risc_e.Base.{ℕ}

pub data TrapCause : Type 0 where
  instruction_address_misaligned : TrapCause
  instruction_access_fault : TrapCause
  illegal_instruction : TrapCause
  load_misaligned : TrapCause
  load_fault : TrapCause
  store_misaligned : TrapCause
  store_fault : TrapCause
  environment_call_from_mmode : TrapCause

-- `static_cast<uint32_t>(cause)`.
abbrev pub code : TrapCause → ℕ
code TrapCause.instruction_address_misaligned = 0
code TrapCause.instruction_access_fault = 1
code TrapCause.illegal_instruction = 2
code TrapCause.load_misaligned = 4
code TrapCause.load_fault = 5
code TrapCause.store_misaligned = 6
code TrapCause.store_fault = 7
code TrapCause.environment_call_from_mmode = 11

-- One call `raise_trap(cause, value)`.
pub record Trap : Type 0 where
  pub cause : TrapCause
  pub value : ℕ
