-- ===== src/Predictor.antt =====
-- Branch predictors: include/risc-e/component/predictor/branch_predictor.hpp.
-- A predictor is a record of operations over a state of its own; null pointers to a predictor are
-- `none` where the code allows them.
pub mod Stack
pub mod Context
pub mod Counter
pub mod Calls
pub mod Nesting
pub mod Designs
pub mod Stats
pub mod Tests
use risc_e.Base.{ℕ}
use Context.{BranchContext, Prediction, Resolution}

-- The virtual members of class BranchPredictor.
pub record BranchPredictor : Type 1 where
  pub State : Type 0
  pub predict : State → BranchContext → Prediction
  pub resolve : State → BranchContext → Resolution → State
  pub reset : State → State
