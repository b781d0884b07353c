-- ===== src/Component/Designs.antt =====
-- The components of the registry with their configured state: the classes below
-- include/risc-e/component/ that extend Component.
use risc_e.Base.{true, false}
use risc_e.Base.Text.{Text, text}
use risc_e.Predictor.Stack.{ReturnAddressStack}
use risc_e.Predictor.Designs.TwoBit.{TwoBit}
use risc_e.Predictor.Designs.Gshare.{Gshare}
use risc_e.Predictor.Designs.Tournament.{Tournament}
use risc_e.Pipeline.{PipelineModel}
use risc_e.ICache.Cache.{ICacheConfig, Replacement}
use risc_e.DCache.Replacement.{ReplacementPolicy}
use risc_e.DCache.Cache.{DCacheConfig, WritePolicy, WriteAllocate}

-- The four classes below ICacheComponent.
pub data CacheDesign : Type 0 where
  fully_associative set_associative pseudo_lru prefetch : CacheDesign

-- A `unique_ptr<Component>` that is not null.
pub data Component : Type 0 where
  two_bit : TwoBit → Component
  always_not_taken : Component
  gshare : Gshare → Component
  tournament : Tournament → Component
  ras : ReturnAddressStack → Component
  pipeline : PipelineModel → Component
  icache : CacheDesign → ICacheConfig → Component
  l1_l2 : DCacheConfig → DCacheConfig → Component

abbrev pub cache_name : CacheDesign → Text
cache_name fully_associative = text "icache-fa"
cache_name set_associative = text "icache-setassoc"
cache_name pseudo_lru = text "icache-plru"
cache_name prefetch = text "icache-prefetch"

-- name(), the kName of each class.
abbrev pub name : Component → Text
name (two_bit s) = text "two-bit"
name always_not_taken = text "always-not-taken"
name (gshare s) = text "gshare"
name (tournament s) = text "tournament"
name (ras s) = text "ras"
name (pipeline m) = text "pipeline"
name (icache design config) = cache_name design
name (l1_l2 l1 l2) = text "l1-l2"

-- type()
abbrev pub type : Component → Text
type (two_bit s) = text "predictor"
type always_not_taken = text "predictor"
type (gshare s) = text "predictor"
type (tournament s) = text "predictor"
type (ras s) = text "predictor"
type (pipeline m) = text "pipeline"
type (icache design config) = text "icache"
type (l1_l2 l1 l2) = text "cache"

-- The constructors. The defaults of the fields are those of ICacheConfig and DCacheConfig.
abbrev pub cache_config : CacheDesign → ICacheConfig
cache_config fully_associative = record {
  miss_penalty = 50;
  line_size = 16;
  sets = 1;
  ways = 16;
  policy = Replacement.lru;
  prefetch = false;
}
cache_config set_associative = record {
  miss_penalty = 50;
  line_size = 16;
  sets = 16;
  ways = 4;
  policy = Replacement.lru;
  prefetch = false;
}
cache_config pseudo_lru = record {
  miss_penalty = 50;
  line_size = 16;
  sets = 16;
  ways = 4;
  policy = Replacement.plru;
  prefetch = false;
}
cache_config prefetch = record {
  miss_penalty = 50;
  line_size = 16;
  sets = 16;
  ways = 4;
  policy = Replacement.lru;
  prefetch = true;
}

abbrev pub l1_config : DCacheConfig
l1_config = record {
  hit_latency = 4;
  miss_penalty = 100;
  line_size = 16;
  sets = 16;
  ways = 4;
  write_buffer_depth = 4;
  policy = ReplacementPolicy.lru;
  write_policy = WritePolicy.write_back;
  allocation = WriteAllocate.write_allocate;
}

abbrev pub l2_config : DCacheConfig
l2_config = record {
  hit_latency = 14;
  miss_penalty = 100;
  line_size = 64;
  sets = 32;
  ways = 8;
  write_buffer_depth = 4;
  policy = ReplacementPolicy.lru;
  write_policy = WritePolicy.write_back;
  allocation = WriteAllocate.write_allocate;
}
