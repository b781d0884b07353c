-- ===== src/Interpreter.antt =====
-- The RV32I interpreter: src/interpreter/interpreter.cpp.
pub mod Alu
pub mod Machine
pub mod Execute
pub mod Run
pub mod Outcomes
pub mod Traps
pub mod Bounds
pub mod Invariant
pub mod Halting
pub mod Loads
pub mod Stores
pub mod Tests
pub mod Counters
pub mod Accounting
