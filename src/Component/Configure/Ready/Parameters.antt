-- ===== src/Component/Configure/Ready/Parameters.antt =====
-- Every call of set_parameter keeps a component ready for a run: the functions below src/component/.
use risc_e.Base.Text.{Text}
use risc_e.Pipeline.{PipelineModel}
use risc_e.Component.Values.{Result, ok, error, ◌>>=◌, parse_parameter_value}
use risc_e.Component.Designs.{
  Component, two_bit, always_not_taken, gshare, tournament, ras, pipeline, icache, l1_l2,
}
use risc_e.Component.Configure.{set_parameter}
use risc_e.Component.Configure.Predictors.{
  set_two_bit, set_gshare, set_tournament, set_ras, set_pipeline,
}
use risc_e.Component.Configure.Caches.{set_cache, set_levels}
use risc_e.Component.Configure.Ready.{OnOk, OnOk-bind, IsReady, AreLevels, IsCache}
use risc_e.Predictor.Designs.Validity.{IsTwoBit}
use risc_e.Predictor.Stack.{IsBounded}
use risc_e.Component.Configure.Ready.Caches.{set_cache-IsReady, levels-IsLevel}
use risc_e.Component.Configure.Ready.Predictors.{
  two_bit-IsReady, gshare-IsReady, tournament-IsReady, ras-IsReady, any_ok,
}

-- A parameter that is accepted leaves a component that a run can start with.
pub set_parameter-IsReady :
    (c : Component) (name value : Text) → IsReady c → OnOk IsReady (set_parameter c name value)
unfolding set_parameter
set_parameter-IsReady (two_bit s) name value h =
    OnOk-bind IsTwoBit IsReady (set_two_bit s name value) (λ t. ok (two_bit t))
      (two_bit-IsReady name value s h) (λ t k. k)
set_parameter-IsReady always_not_taken name value h = tt
set_parameter-IsReady (gshare s) name value h =
    OnOk-bind (λ t. IsReady (gshare t)) IsReady (set_gshare s name value) (λ t. ok (gshare t))
      (gshare-IsReady name value s h) (λ t k. k)
set_parameter-IsReady (tournament s) name value h =
    OnOk-bind (λ t. IsReady (tournament t)) IsReady (set_tournament s name value)
      (λ t. ok (tournament t)) (tournament-IsReady name value s h) (λ t k. k)
set_parameter-IsReady (ras s) name value h =
    OnOk-bind IsBounded IsReady (set_ras s name value) (λ t. ok (ras t))
      (ras-IsReady name value s h) (λ t k. k)
set_parameter-IsReady (pipeline m) name value h = set_pipeline_any (set_pipeline m name value)
  where
    set_pipeline_any : (r : Result PipelineModel) → OnOk IsReady (r >>= λ n. ok (pipeline n))
    set_pipeline_any (ok n) = tt
    set_pipeline_any (error e) = tt
set_parameter-IsReady (icache design c) name value h =
    OnOk-bind (λ _. Unit {0}) IsReady (parse_parameter_value value) _
      (any_ok (parse_parameter_value value))
      λ v _.
        OnOk-bind (IsCache design) IsReady (set_cache design c name v) (λ d. ok (icache design d))
          (set_cache-IsReady design name v c h) (λ d k. k)
set_parameter-IsReady (l1_l2 a b) name value h =
    OnOk-bind (λ _. Unit {0}) IsReady (parse_parameter_value value) _
      (any_ok (parse_parameter_value value))
      λ v _.
        OnOk-bind AreLevels IsReady (set_levels a b name v) (λ x. ok (l1_l2 x.0 x.1))
          (levels-IsLevel name v a b h.0 h.1) (λ x k. k)
