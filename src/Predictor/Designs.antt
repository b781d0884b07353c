-- ===== src/Predictor/Designs.antt =====
-- The predictor designs: src/component/predictor/implementations/.
-- `none` from a `configure` is the std::invalid_argument that the code throws.
pub mod AlwaysNotTaken
pub mod Ras
pub mod TwoBit
pub mod Gshare
pub mod Tournament
pub mod Learning
pub mod Validity
