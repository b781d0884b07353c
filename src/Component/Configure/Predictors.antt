-- ===== src/Component/Configure/Predictors.antt =====
-- set_parameter of the predictors and the pipeline model: src/component/predictor/implementations/,
-- include/risc-e/component/predictor/branch_predictor.hpp and src/component/pipeline/pipeline.cpp.
-- A bool with a filled `error` is a Result.
use risc_e.Base.{◌++◌, ltb, if◌then◌else◌}
use risc_e.Base.Word.{u32}
use risc_e.Base.Text.{Text, text, text_eq, to_string}
use risc_e.Component.Values.{
  Result, ok, error, ◌>>=◌, or_throw, unknown_parameter, parse_parameter_value,
}
use risc_e.Predictor.Stack.{ReturnAddressStack, max_depth}
use risc_e.Predictor.Stack
use risc_e.Predictor.Designs.TwoBit
use risc_e.Predictor.Designs.TwoBit.{TwoBit}
use risc_e.Predictor.Designs.Gshare
use risc_e.Predictor.Designs.Gshare.{Gshare}
use risc_e.Predictor.Designs.Tournament
use risc_e.Predictor.Designs.Tournament.{Tournament}
use risc_e.Pipeline.{PipelineModel}

unfoldable pub set_ras_depth_parameter : Text → ReturnAddressStack → Result ReturnAddressStack
set_ras_depth_parameter value s = do
  parsed ← parse_parameter_value value
  (if ltb max_depth parsed
      then error (text "ras-depth must be in [0, " ++ (to_string max_depth ++ text "]"))
      else ok (Stack.resize s parsed))

unfoldable pub set_two_bit : TwoBit → Text → Text → Result TwoBit
unfolding set_ras_depth_parameter
set_two_bit s name value =
    if text_eq name (text "table-size")
    then (do
      parsed ← parse_parameter_value value
      or_throw (TwoBit.configure parsed s.ras)
          (text "two-bit table_size must be a nonzero power of two"))
    else if text_eq name (text "ras-depth")
    then (do stack ← set_ras_depth_parameter value s.ras; ok (record s { ras = stack }))
    else error (unknown_parameter name)

unfoldable pub set_gshare : Gshare → Text → Text → Result Gshare
unfolding set_ras_depth_parameter
set_gshare s name value =
    if text_eq name (text "history-bits")
    then (do
      parsed ← parse_parameter_value value
      or_throw (Gshare.configure parsed s.global_history s.ras)
          (text "gshare history_bits must be in [1, 16]"))
    else if text_eq name (text "ras-depth")
    then (do stack ← set_ras_depth_parameter value s.ras; ok (record s { ras = stack }))
    else error (unknown_parameter name)

unfoldable pub set_tournament : Tournament → Text → Text → Result Tournament
unfolding set_ras_depth_parameter
set_tournament s name value =
    if text_eq name (text "history-bits")
    then (do
      parsed ← parse_parameter_value value
      or_throw (Tournament.configure parsed s.global_history s.ras)
          (text "tournament history_bits must be in [1, 16]"))
    else if text_eq name (text "ras-depth")
    then (do stack ← set_ras_depth_parameter value s.ras; ok (record s { ras = stack }))
    else error (unknown_parameter name)

unfoldable pub set_ras : ReturnAddressStack → Text → Text → Result ReturnAddressStack
unfolding set_ras_depth_parameter
set_ras s name value =
    if text_eq name (text "ras-depth")
    then set_ras_depth_parameter value s
    else error (unknown_parameter name)

-- `static_cast<int>` keeps the low 32 bits.
unfoldable pub set_pipeline : PipelineModel → Text → Text → Result PipelineModel
set_pipeline m name value = do
  parsed ← parse_parameter_value value
  (if text_eq name (text "stages")
      then (if ltb parsed 1
          then error (text "stages must be >= 1")
          else ok (record m { stages = u32 parsed }))
      else if text_eq name (text "stall-penalty")
      then ok (record m { stall_penalty = u32 parsed })
      else error (unknown_parameter name))
