-- ===== src/Interpreter/Alu/Legality.antt =====
-- Which register and immediate operations execute_op and execute_op_imm accept:
-- src/interpreter/interpreter.cpp.
use risc_e.Base.{ℕ, ◌<◌, ◌≡◌, ◌≢◌, ◌↔◌, ◌⊎◌, inl, inr, refl, arith, Option, none, some}
use risc_e.Cpu.Trap.{TrapCause}
use risc_e.Decoder.{DecodedInstruction}
use risc_e.Predictor.{BranchPredictor}
use risc_e.Interpreter.Machine.{Interpreter}
use risc_e.Interpreter.Execute.{illegal, retire, execute_op, execute_op_imm}
use risc_e.Interpreter.Outcomes.{halted, retired, illegal-halted, retire-retired}
use risc_e.Interpreter.Alu.{alu_imm, alu_op, alu_result, is_valid_funct7, is_valid_shift, shift_imm}

-- The encodings of the manual's table of RV32I: funct7 is 0 for every register operation, or 32 for
-- sub and sra.
abbrev pub IsRegisterOperation : DecodedInstruction → Type 0
IsRegisterOperation d = (d.funct7 ≡ 0) ⊎ ((d.funct7 ≡ 32) × ((d.funct3 ≡ 0) ⊎ (d.funct3 ≡ 5)))

-- Every immediate operation is legal but for the shifts, whose top seven bits are 0, or 32 for srai.
abbrev pub IsImmediateOperation : DecodedInstruction → Type 0
IsImmediateOperation d =
    ((d.funct3 ≡ 1) → (d.funct7 ≡ 0)) × ((d.funct3 ≡ 5) → (d.funct7 ≡ 0) ⊎ (d.funct7 ≡ 32))

alu_op_legal :
    (d : DecodedInstruction) (a b : ℕ)
    → d.funct3 < 8
    → (alu_op d a b ≢ none) ↔ IsRegisterOperation d
unfolding alu_op alu_result is_valid_funct7
alu_op_legal d a b h = ground arith

alu_imm_legal :
    (d : DecodedInstruction) (a : ℕ) → d.funct3 < 8 → (alu_imm d a ≢ none) ↔ IsImmediateOperation d
unfolding alu_imm is_valid_shift shift_imm
alu_imm_legal d a h = ground arith

-- How an operation ends: it is legal, and the machine writes its result to rd and goes on, or it is
-- not, and the machine stops with the illegal-instruction trap for its word.
abbrev pub Ends :
    {p : BranchPredictor}
    → Interpreter p
    → DecodedInstruction
    → Type 0
    → Option ℕ
    → Interpreter p
    → Type 0
Ends i d Legal result j =
    (Legal × ((r : ℕ) × (result ≡ some r) × (j ≡ retired i d.rd r)))
    ⊎ ((¬ Legal) × (j ≡ halted i TrapCause.illegal_instruction d.raw))

module _ {p : BranchPredictor} (i : Interpreter p) (d : DecodedInstruction) where
  ends :
      (Legal : Type 0) (o : Option ℕ)
      → (o ≢ none) ↔ Legal
      → Ends i d Legal o
          (elim o as (λ _. Interpreter p) [ none ↦ illegal i d | some r ↦ retire i d.rd r ])
  ends Legal none legal = inr (λ h. legal.1 h refl, illegal-halted i d)
  ends Legal (some r) legal = inl (legal.0 (λ h. cc), (r, refl, retire-retired i d.rd r))

  -- With a funct3 of three bits, execute_op ends in one of two ways: the encoding is a register
  -- operation of RV32I, and the result of alu_op on rs1 and rs2 is written to rd and the program
  -- counter moves on by four, or it is none, and the machine stops with the illegal-instruction trap,
  -- the registers and the program counter as they were.
  pub execute_op-Ends :
      d.funct3 < 8
      → Ends i d (IsRegisterOperation d) (alu_op d (i.cpu.x d.rs1) (i.cpu.x d.rs2)) (execute_op i d)
  unfolding execute_op
  execute_op-Ends small =
      ends (IsRegisterOperation d) (alu_op d (i.cpu.x d.rs1) (i.cpu.x d.rs2))
        (alu_op_legal d (i.cpu.x d.rs1) (i.cpu.x d.rs2) small)

  -- With a funct3 of three bits, execute_op_imm ends in the same two ways: the illegal encodings are
  -- the shifts whose upper bits are not those of RV32I.
  execute_op_imm-Ends :
      d.funct3 < 8
      → Ends i d (IsImmediateOperation d) (alu_imm d (i.cpu.x d.rs1)) (execute_op_imm i d)
  unfolding execute_op_imm
  execute_op_imm-Ends small =
      ends (IsImmediateOperation d) (alu_imm d (i.cpu.x d.rs1))
        (alu_imm_legal d (i.cpu.x d.rs1) small)
