-- ===== src/Cpu.antt =====
-- The processor state: include/risc-e/cpu/state.hpp and include/risc-e/cpu/trap.hpp.
pub mod Trap
pub mod State
