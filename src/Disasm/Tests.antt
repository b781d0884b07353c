-- ===== src/Disasm/Tests.antt =====
-- Witnesses and runs for the disassembler.
use risc_e.Base.{◌≡◌, refl, inl, inr, arith, true, false, [], ◌∷◌, length}
use risc_e.Base.Text.{text, text_eq, to_string, signed_string}
use risc_e.Decoder.{DecodedInstruction}
use risc_e.ICache.Profile.{ICacheStats, fresh}
use risc_e.Interpreter.Machine.{Interpreter}
use risc_e.Interpreter.Run.{new}
use risc_e.Interpreter.Execute
use risc_e.Interpreter.Execute.{execute}
use risc_e.Elf.{LoadedElf}
use risc_e.Base.{some}
use risc_e.Predictor.{BranchPredictor}
use risc_e.Predictor.Designs.AlwaysNotTaken
use risc_e.Disasm.Instruction.{
  reg, illegal, format_r, format_i, disassemble_op, disassemble_op_imm, disassemble_instruction,
}
use risc_e.Disasm.Instruction.Validity.{says_illegal, execute-listed_illegal, execute-listed_op}
use risc_e.Disasm.Blocks.{entries_of, build_block_table}
use risc_e.Disasm.Blocks.Tiling.{total_size, total_size-build_block_table}

abbrev p : BranchPredictor
p = AlwaysNotTaken.predictor

abbrev image : LoadedElf
image = record { entry = 0x1000; end_vaddr = 0x1004; segments = [] }

abbrev idle : Interpreter p
idle = new image (some tt)

-- `addi a0, zero, -1`
abbrev addi : DecodedInstruction
addi = record {
  addr = 0x1000;
  raw = 0xfff00513;
  opcode = 0x13;
  rd = 10;
  funct3 = 0;
  rs1 = 0;
  rs2 = 31;
  funct7 = 127;
  imm = 0xffffffff;
}

disassembled_addi : disassemble_instruction addi ≡ text "addi a0, zero, -1"
unfolding disassemble_instruction to_string disassemble_op_imm format_i reg signed_string
disassembled_addi = refl

-- A word of zeros.
abbrev zeros : DecodedInstruction
zeros = record {
  addr = 0x1000;
  raw = 0;
  opcode = 0;
  rd = 0;
  funct3 = 0;
  rs1 = 0;
  rs2 = 0;
  funct7 = 0;
  imm = 0;
}

zeros_listed : says_illegal (disassemble_instruction zeros) ≡ true
unfolding disassemble_instruction text_eq illegal
zeros_listed = refl

execute-listed_illegal_example : execute idle zeros ≡ Execute.illegal idle zeros
execute-listed_illegal_example = execute-listed_illegal idle zeros zeros_listed

-- `mul a0, a0, a1` of the M extension.
abbrev mul : DecodedInstruction
mul = record {
  addr = 0x1000;
  raw = 0x02b50533;
  opcode = 0x33;
  rd = 10;
  funct3 = 0;
  rs1 = 10;
  rs2 = 11;
  funct7 = 1;
  imm = 0;
}

disassembled_mul : disassemble_instruction mul ≡ text "add a0, a0, a1"
unfolding disassemble_instruction disassemble_op format_r reg
disassembled_mul = refl

execute-listed_op_example :
    (says_illegal (disassemble_instruction mul) ≡ false)
    × (execute idle mul ≡ Execute.illegal idle mul)
execute-listed_op_example =
    execute-listed_op idle mul refl (omega arith) (ground arith) (ground arith)

-- Two blocks, of two instructions and of one.
abbrev profiled : ICacheStats
profiled = record fresh {
  instructions = 12;
  seen_pcs = 0x1000 ∷ 0x1004 ∷ 0x1020 ∷ [];
  blocks =
      record { entry_pc = 0x1020; executions = 1; instructions = 1 }
      ∷ record { entry_pc = 0x1000; executions = 2; instructions = 4 }
      ∷ [];
}

total_size-build_block_table_example :
    total_size (build_block_table profiled) ≡ length profiled.seen_pcs
unfolding entries_of
total_size-build_block_table_example =
    total_size-build_block_table profiled (ground arith) (ground arith) (
      (inr (inl (omega arith)), omega arith),
      ((inr (inl (omega arith)), omega arith), ((inl (omega arith), omega arith), tt)),
    )
