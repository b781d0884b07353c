-- ===== src/Component/Configure/Caches.antt =====
-- set_parameter of the caches: src/component/icache/icache.cpp, src/component/icache/implementations/
-- and src/component/dcache/implementations/l1l2_cache.cpp. A bool with a filled `error` is a Result.
use Prim.Native.Nat.{bit_and}
use risc_e.Base.{
  ℕ, ◌-◌, Bool, true, false, not, [], take, drop, length, ltb, ◌==◌, ◌&&◌, ◌||◌, if◌then◌else◌,
}
use risc_e.Base.Text.{Text, text, text_eq}
use risc_e.Component.Values.{Result, ok, error, ◌>>=◌, or_else, unknown_parameter}
use risc_e.ICache.Cache.{ICacheConfig}
use risc_e.DCache.Cache.{DCacheConfig}
use risc_e.Component.Designs.{CacheDesign, fully_associative, set_associative, pseudo_lru, prefetch}

-- The third argument is what `error` holds before the call.
unfoldable pub set_shared_parameter : ICacheConfig → Text → ℕ → Text → Result ICacheConfig
set_shared_parameter config name value err =
    if text_eq name (text "miss-penalty")
    then ok (record config { miss_penalty = value })
    else if text_eq name (text "line-size")
    then (if ltb value 1
        then error (text "line-size must be >= 1")
        else ok (record config { line_size = value }))
    else error err

unfoldable pub set_geometry_parameter : ICacheConfig → Text → ℕ → Text → Bool → Result ICacheConfig
set_geometry_parameter config name value err power_of_two_ways =
    if text_eq name (text "sets")
    then (if ltb value 1
        then error (text "sets must be >= 1")
        else ok (record config { sets = value }))
    else if text_eq name (text "ways")
    then (if ltb value 1 || (power_of_two_ways && not (bit_and value (value - 1) == 0))
        then error (
            if power_of_two_ways
            then text "ways must be a power of two for PLRU"
            else text "ways must be >= 1")
        else ok (record config { ways = value }))
    else error err

-- The test of `ways` in FullyAssociativeICache::set_parameter.
unfoldable pub set_lines : ICacheConfig → Text → ℕ → Result ICacheConfig
set_lines config name value =
    if text_eq name (text "ways")
    then (if ltb value 1
        then error (text "ways must be >= 1")
        else ok (record config { ways = value }))
    else error (unknown_parameter name)

-- The four set_parameter functions below ICacheComponent, from the parsed value on.
unfoldable pub set_cache : CacheDesign → ICacheConfig → Text → ℕ → Result ICacheConfig
unfolding set_shared_parameter set_geometry_parameter set_lines
set_cache fully_associative config name value =
    or_else (set_shared_parameter config name value []) λ e. set_lines config name value
set_cache set_associative config name value =
    or_else (set_shared_parameter config name value []) λ e.
      or_else (set_geometry_parameter config name value e false)
        λ e'. error (unknown_parameter name)
set_cache pseudo_lru config name value = or_else (set_shared_parameter config name value []) λ e.
    or_else (set_geometry_parameter config name value e true) λ e'. error (unknown_parameter name)
set_cache prefetch config name value = or_else (set_shared_parameter config name value []) λ e.
    or_else (set_geometry_parameter config name value e false) λ e'. error (unknown_parameter name)

unfoldable pub set_level_parameter : DCacheConfig → Text → ℕ → Text → Result DCacheConfig
set_level_parameter config name value err =
    if text_eq name (text "hit-latency")
    then ok (record config { hit_latency = value })
    else if text_eq name (text "miss-penalty")
    then ok (record config { miss_penalty = value })
    else if text_eq name (text "line-size")
    then (if ltb value 1
        then error (text "line-size must be >= 1")
        else ok (record config { line_size = value }))
    else if text_eq name (text "sets")
    then (if ltb value 1
        then error (text "sets must be >= 1")
        else ok (record config { sets = value }))
    else if text_eq name (text "ways")
    then (if ltb value 1
        then error (text "ways must be >= 1")
        else ok (record config { ways = value }))
    else error err

-- L1L2Cache::set_parameter, from the parsed value on: the prefix of the name selects the level.
unfoldable pub set_levels :
    DCacheConfig → DCacheConfig → Text → ℕ → Result (DCacheConfig × DCacheConfig)
unfolding set_level_parameter
set_levels l1 l2 name value =
    let rest = drop 3 name in
    if ltb 3 (length name) && text_eq (take 3 name) (text "l1-")
    then (or_else (do level ← set_level_parameter l1 rest value []; ok (level, l2))
        (λ e. error (unknown_parameter name)))
    else if ltb 3 (length name) && text_eq (take 3 name) (text "l2-")
    then (or_else (do level ← set_level_parameter l2 rest value []; ok (l1, level))
        (λ e. error (unknown_parameter name)))
    else error (unknown_parameter name)
