-- ===== src/Disasm.antt =====
-- The disassembler: src/disasm/disasm.cpp.
-- A line of assembly is the list of its bytes; `imm` is the bit pattern of an `int32_t`.
mod Tests
pub mod Instruction
pub mod Blocks
