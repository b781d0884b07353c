-- ===== src/Cpu/State.antt =====
-- CPUState. The register file is a function of the register's number; the pointer to the memory is
-- not kept here, since the interpreter owns the memory.
use risc_e.Base.{ℕ, Bool}

pub data HaltReason : Type 0 where
  none ecall ebreak trap : HaltReason

pub record CpuState : Type 0 where
  pub x : ℕ → ℕ
  pub pc : ℕ
  pub running : Bool
  pub halt_reason : HaltReason
  pub mepc : ℕ
  pub mcause : ℕ
  pub mtval : ℕ
