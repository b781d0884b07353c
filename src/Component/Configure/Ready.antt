-- ===== src/Component/Configure/Ready.antt =====
-- The configurations that the set_parameter functions below src/component/ produce.
pub mod Caches
pub mod Predictors
pub mod Parameters
use Prim.Native.Nat.{bit_and}
use risc_e.Base.{
  ℕ, zero, suc, ◌+◌, ◌-◌, ◌^◌, ◌≤◌, ◌<◌, ◌≡◌, refl, arith, Bool, true, false, Option, none, some,
  List, [], ◌∷◌, All, length, replicate, length-replicate, All-replicate, ltb, ◌==◌, ◌||◌,
  if◌then◌else◌, if-cases, ◌&&◌, take, drop,
}
use risc_e.Base.Text.{Text, text, text_eq}
use risc_e.Predictor.Stack
use risc_e.Predictor.Stack.{ReturnAddressStack, IsBounded}
use risc_e.Predictor.Counter.{IsCounter}
use risc_e.Predictor.Designs.TwoBit
use risc_e.Predictor.Designs.TwoBit.{TwoBit}
use risc_e.Predictor.Designs.Gshare
use risc_e.Predictor.Designs.Gshare.{Gshare}
use risc_e.Predictor.Designs.Tournament
use risc_e.Predictor.Designs.Tournament.{Tournament}
use risc_e.Predictor.Designs.Validity.{IsTwoBit, IsGshare, IsTournament, IsTable}
use risc_e.ICache.Cache.{ICacheConfig}
use risc_e.DCache.Cache.{DCacheConfig}
use risc_e.Component.Values.{
  Result, ok, error, ◌>>=◌, or_throw, or_else, unknown_parameter, parse_parameter_value,
}
use risc_e.Component.Designs.{
  CacheDesign, fully_associative, set_associative, pseudo_lru, prefetch, Component, two_bit,
  always_not_taken, gshare, tournament, ras, pipeline, icache, l1_l2,
}
use risc_e.Component.Configure.{set_parameter}
use risc_e.Component.Configure.Predictors.{
  set_ras_depth_parameter, set_two_bit, set_gshare, set_tournament, set_ras, set_pipeline,
}
use risc_e.Component.Configure.Caches.{
  set_shared_parameter, set_geometry_parameter, set_lines, set_cache, set_level_parameter,
  set_levels,
}

-- What holds of a value, if there is one.
abbrev pub OnOk {ℓ κ} : {A : Type ℓ} → (A → Type κ) → Result A → Type κ
OnOk P (ok a) = P a
OnOk P (error e) = Unit

pub OnOk-bind {ℓ κ μ ν} :
    {A : Type ℓ} {B : Type κ} (P : A → Type μ) (Q : B → Type ν) (r : Result A) (f : A → Result B)
    → OnOk P r
    → ((a : A) → P a → OnOk Q (f a))
    → OnOk Q (r >>= f)
OnOk-bind P Q (ok a) f h k = k a h
OnOk-bind P Q (error e) f h k = tt

pub OnOk-or_else {ℓ κ} :
    {A : Type ℓ} (P : A → Type κ) (r : Result A) (f : Text → Result A)
    → OnOk P r
    → ((e : Text) → OnOk P (f e))
    → OnOk P (or_else r f)
OnOk-or_else P (ok a) f h k = h
OnOk-or_else P (error e) f h k = k e

pub OnOk-imp {ℓ κ μ} :
    {A : Type ℓ} (P : A → Type κ) (Q : A → Type μ) (r : Result A)
    → OnOk P r
    → ((a : A) → P a → Q a)
    → OnOk Q r
OnOk-imp P Q (ok a) h k = k a h
OnOk-imp P Q (error e) h k = tt

abbrev pub IsGeometry : ICacheConfig → Type 0
IsGeometry c = (1 ≤ c.line_size) × (1 ≤ c.sets) × (1 ≤ c.ways)

abbrev pub IsLevel : DCacheConfig → Type 0
IsLevel c = (1 ≤ c.line_size) × (1 ≤ c.sets) × (1 ≤ c.ways)

abbrev pub AreLevels : DCacheConfig × DCacheConfig → Type 0
AreLevels x = IsLevel (x.0) × IsLevel (x.1)

-- PLRU needs a power of two.
abbrev pub HasWays : CacheDesign → ICacheConfig → Type 0
HasWays fully_associative c = Unit
HasWays set_associative c = Unit
HasWays pseudo_lru c = bit_and c.ways (c.ways - 1) ≡ 0
HasWays prefetch c = Unit

abbrev pub IsCache : CacheDesign → ICacheConfig → Type 0
IsCache design c = IsGeometry c × HasWays design c

-- A component that a run can start with: its tables have the sizes that its fields say, its history
-- is clear, and no size of a cache is zero.
abbrev pub IsReady : Component → Type 0
IsReady (two_bit s) = IsTwoBit s
IsReady always_not_taken = Unit
IsReady (gshare s) = IsGshare s × (s.global_history ≡ 0)
IsReady (tournament s) = IsTournament s × (s.global_history ≡ 0)
IsReady (ras s) = IsBounded s
IsReady (pipeline m) = Unit
IsReady (icache design c) = IsGeometry c × HasWays design c
IsReady (l1_l2 a b) = IsLevel a × IsLevel b
