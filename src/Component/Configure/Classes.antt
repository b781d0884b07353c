-- ===== src/Component/Configure/Classes.antt =====
-- The classes that extend Component in include/risc-e/component/, as a relation on components.
use risc_e.Base.{◌≡◌, refl}
use risc_e.Predictor.Stack.{ReturnAddressStack}
use risc_e.Predictor.Designs.TwoBit.{TwoBit}
use risc_e.Predictor.Designs.Gshare.{Gshare}
use risc_e.Predictor.Designs.Tournament.{Tournament}
use risc_e.Pipeline.{PipelineModel}
use risc_e.ICache.Cache.{ICacheConfig}
use risc_e.DCache.Cache.{DCacheConfig}
use risc_e.Component.Designs.{
  type, CacheDesign, Component, two_bit, always_not_taken, gshare, tournament, ras, pipeline,
  icache, l1_l2, name,
}

-- Two states of one class.
pub data SameClass : Component → Component → Type 0 where
  two_bits : (s t : TwoBit) → SameClass (two_bit s) (two_bit t)
  always_not_takens : SameClass always_not_taken always_not_taken
  gshares : (s t : Gshare) → SameClass (gshare s) (gshare t)
  tournaments : (s t : Tournament) → SameClass (tournament s) (tournament t)
  stacks : (s t : ReturnAddressStack) → SameClass (ras s) (ras t)
  pipelines : (m n : PipelineModel) → SameClass (pipeline m) (pipeline n)
  caches :
      (design : CacheDesign) (c d : ICacheConfig) → SameClass (icache design c) (icache design d)
  levels : (a b c d : DCacheConfig) → SameClass (l1_l2 a b) (l1_l2 c d)

pub SameClass-refl : (c : Component) → SameClass c c
SameClass-refl (two_bit s) = two_bits s s
SameClass-refl always_not_taken = always_not_takens
SameClass-refl (gshare s) = gshares s s
SameClass-refl (tournament s) = tournaments s s
SameClass-refl (ras s) = stacks s s
SameClass-refl (pipeline m) = pipelines m m
SameClass-refl (icache design c) = caches design c c
SameClass-refl (l1_l2 a b) = levels a b a b

pub SameClass-trans : {c d e : Component} → SameClass c d → SameClass d e → SameClass c e
SameClass-trans (two_bits s _) (two_bits _ u) = two_bits s u
SameClass-trans always_not_takens always_not_takens = always_not_takens
SameClass-trans (gshares s _) (gshares _ u) = gshares s u
SameClass-trans (tournaments s _) (tournaments _ u) = tournaments s u
SameClass-trans (stacks s _) (stacks _ u) = stacks s u
SameClass-trans (pipelines m _) (pipelines _ o) = pipelines m o
SameClass-trans (caches design a _) (caches _ _ c) = caches design a c
SameClass-trans (levels a b _ _) (levels _ _ e f) = levels a b e f

pub SameClass-name : {c d : Component} → SameClass c d → name c ≡ name d
SameClass-name (two_bits s t) = refl
SameClass-name always_not_takens = refl
SameClass-name (gshares s t) = refl
SameClass-name (tournaments s t) = refl
SameClass-name (stacks s t) = refl
SameClass-name (pipelines m n) = refl
SameClass-name (caches design c d) = refl
SameClass-name (levels a b c d) = refl

pub SameClass-type : {c d : Component} → SameClass c d → type c ≡ type d
SameClass-type (two_bits s t) = refl
SameClass-type always_not_takens = refl
SameClass-type (gshares s t) = refl
SameClass-type (tournaments s t) = refl
SameClass-type (stacks s t) = refl
SameClass-type (pipelines m n) = refl
SameClass-type (caches design c d) = refl
SameClass-type (levels a b c d) = refl
