-- ===== src/Component/Configure.antt =====
-- set_parameter, the virtual function of Component in include/risc-e/component/component.hpp.
pub mod Predictors
pub mod Caches
pub mod Classes
pub mod Outcome
pub mod Ready
use risc_e.Base.Text.{Text}
use risc_e.Component.Values.{Result, ok, error, ◌>>=◌, unknown_parameter, parse_parameter_value}
use risc_e.Component.Designs.{
  Component, two_bit, always_not_taken, gshare, tournament, ras, pipeline, icache, l1_l2,
}
use Predictors.{set_two_bit, set_gshare, set_tournament, set_ras, set_pipeline}
use Caches.{set_cache, set_levels}

-- The dispatch of the virtual call; AlwaysNotTakenPredictor has the one of Component.
unfoldable pub set_parameter : Component → Text → Text → Result Component
unfolding set_two_bit set_gshare set_tournament set_ras set_pipeline set_cache set_levels
set_parameter (two_bit s) name value = do s' ← set_two_bit s name value; ok (two_bit s')
set_parameter always_not_taken name value = error (unknown_parameter name)
set_parameter (gshare s) name value = do s' ← set_gshare s name value; ok (gshare s')
set_parameter (tournament s) name value = do s' ← set_tournament s name value; ok (tournament s')
set_parameter (ras s) name value = do s' ← set_ras s name value; ok (ras s')
set_parameter (pipeline m) name value = do m' ← set_pipeline m name value; ok (pipeline m')
set_parameter (icache design config) name value = do
  parsed ← parse_parameter_value value
  config' ← set_cache design config name parsed
  ok (icache design config')
set_parameter (l1_l2 l1 l2) name value = do
  parsed ← parse_parameter_value value
  levels ← set_levels l1 l2 name parsed
  ok (l1_l2 (levels.0) (levels.1))
