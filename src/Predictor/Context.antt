-- ===== src/Predictor/Context.antt =====
-- BranchContext, Prediction and Resolution of
-- include/risc-e/component/predictor/branch_predictor.hpp.
use risc_e.Base.{
  ℕ, ◌≡◌, arith, Bool, true, false, Option, none, some, ◌&&◌, ◌||◌, ◌==◌, if◌then◌else◌,
}
use risc_e.Base.Word.{add32}
use risc_e.Decoder.{DecodedInstruction}
use risc_e.Decoder.Opcodes

pub record BranchContext : Type 0 where
  pub pc : ℕ
  pub raw : ℕ
  pub opcode : ℕ
  pub funct3 : ℕ
  pub rd : ℕ
  pub rs1 : ℕ
  pub rs2 : ℕ
  pub imm : ℕ

abbrev pub from_decoded : DecodedInstruction → BranchContext
from_decoded d = record {
  pc = d.addr;
  raw = d.raw;
  opcode = d.opcode;
  funct3 = d.funct3;
  rd = d.rd;
  rs1 = d.rs1;
  rs2 = d.rs2;
  imm = d.imm;
}

abbrev pub link_reg_ra : ℕ
link_reg_ra = 1

abbrev pub link_reg_t0 : ℕ
link_reg_t0 = 5

unfoldable pub is_conditional_branch : BranchContext → Bool
is_conditional_branch ctx = ctx.opcode == Opcodes.branch

unfoldable pub is_jal : BranchContext → Bool
is_jal ctx = ctx.opcode == Opcodes.jal

unfoldable pub is_jalr : BranchContext → Bool
is_jalr ctx = ctx.opcode == Opcodes.jalr

unfoldable pub is_call : BranchContext → Bool
unfolding is_jal is_jalr
is_call ctx = (is_jal ctx || is_jalr ctx) && (ctx.rd == link_reg_ra || ctx.rd == link_reg_t0)

unfoldable pub is_return : BranchContext → Bool
unfolding is_jalr
is_return ctx =
    is_jalr ctx && ctx.rd == 0 && ctx.imm == 0 && (ctx.rs1 == link_reg_ra || ctx.rs1 == link_reg_t0)

unfoldable pub fallthrough_pc : BranchContext → ℕ
fallthrough_pc ctx = add32 ctx.pc 4

unfoldable pub direct_target : BranchContext → Option ℕ
unfolding is_jal is_conditional_branch
direct_target ctx =
    if is_jal ctx || is_conditional_branch ctx then some (add32 ctx.pc ctx.imm) else none

-- `none` means fall through.
pub record Prediction : Type 0 where
  pub next_pc : Option ℕ

pub record Resolution : Type 0 where
  pub taken : Bool
  pub next_pc : ℕ

pub not-jal_of_branch :
    (ctx : BranchContext) → is_conditional_branch ctx ≡ true → is_jal ctx ≡ false
unfolding is_conditional_branch is_jal
not-jal_of_branch ctx h = ground arith
