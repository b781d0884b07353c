-- ===== src/Component/Configure/Ready/Caches.antt =====
-- The cache configurations that set_parameter of src/component/icache/ and
-- src/component/dcache/implementations/l1l2_cache.cpp produces.
use risc_e.Base.{ℕ, ◌≡◌, arith, true, false, [], length, ltb, if-cases, ◌&&◌, take, drop}
use risc_e.Base.Text.{Text, text, text_eq}
use risc_e.ICache.Cache.{ICacheConfig}
use risc_e.DCache.Cache.{DCacheConfig}
use risc_e.Component.Values.{ok, error, ◌>>=◌, or_else, unknown_parameter}
use risc_e.Component.Designs.{CacheDesign, fully_associative, set_associative, pseudo_lru, prefetch}
use risc_e.Component.Configure.Caches.{
  set_shared_parameter, set_geometry_parameter, set_lines, set_cache, set_level_parameter,
  set_levels,
}
use risc_e.Component.Configure.Ready.{
  OnOk, OnOk-bind, OnOk-or_else, OnOk-imp, IsGeometry, IsLevel, AreLevels, HasWays, IsCache,
}

module _ (name : Text) (value : ℕ) where
  IsLevel-IsLevel :
      (c : DCacheConfig) (e : Text) → IsLevel c → OnOk IsLevel (set_level_parameter c name value e)
  unfolding set_level_parameter
  IsLevel-IsLevel c e v = ground arith

  shared-IsGeometry :
      (c : ICacheConfig) (e : Text)
      → IsGeometry c
      → OnOk (λ d. IsGeometry d × (d.ways ≡ c.ways)) (set_shared_parameter c name value e)
  unfolding set_shared_parameter
  shared-IsGeometry c e v = ground arith

  IsGeometry-IsGeometry :
      (c : ICacheConfig) (e : Text)
      → IsGeometry c
      → OnOk IsGeometry (set_geometry_parameter c name value e false)
  unfolding set_geometry_parameter
  IsGeometry-IsGeometry c e v = ground arith

  IsGeometry-HasWays :
      (c : ICacheConfig) (e : Text)
      → IsGeometry c
      → HasWays pseudo_lru c
      → OnOk (λ d. IsGeometry d × HasWays pseudo_lru d) (set_geometry_parameter c name value e true)
  unfolding set_geometry_parameter
  IsGeometry-HasWays c e v w = ground arith

  lines-IsGeometry : (c : ICacheConfig) → IsGeometry c → OnOk IsGeometry (set_lines c name value)
  unfolding set_lines
  lines-IsGeometry c v = ground arith

pub levels-IsLevel :
    (name : Text) (value : ℕ) (a b : DCacheConfig)
    → IsLevel a
    → IsLevel b
    → OnOk AreLevels (set_levels a b name value)
unfolding set_levels
levels-IsLevel name value a b v w =
    if-cases (OnOk AreLevels) (ltb 3 (length name) && text_eq (take 3 name) (text "l1-")) _ _
      (λ _. first)
      λ _.
        if-cases (OnOk AreLevels) (ltb 3 (length name) && text_eq (take 3 name) (text "l2-")) _ _
          (λ _. second) (λ _. tt)
  where
    first : OnOk AreLevels (
        or_else
          (set_level_parameter a (drop 3 name) value [] >>= λ c. ok (c, b))
          (λ e. error (unknown_parameter name)))
    first =
        OnOk-or_else AreLevels _ _
          (OnOk-bind IsLevel AreLevels (set_level_parameter a (drop 3 name) value [])
            (λ c. ok (c, b)) (IsLevel-IsLevel (drop 3 name) value a [] v) (λ c h. (h, w)))
          (λ e. tt)

    second : OnOk AreLevels (
        or_else
          (set_level_parameter b (drop 3 name) value [] >>= λ c. ok (a, c))
          (λ e. error (unknown_parameter name)))
    second =
        OnOk-or_else AreLevels _ _
          (OnOk-bind IsLevel AreLevels (set_level_parameter b (drop 3 name) value [])
            (λ c. ok (a, c)) (IsLevel-IsLevel (drop 3 name) value b [] w) (λ c h. (v, h)))
          (λ e. tt)

HasWays-same :
    (design : CacheDesign) (c d : ICacheConfig)
    → d.ways ≡ c.ways
    → HasWays design c
    → HasWays design d
HasWays-same fully_associative c d e h = tt
HasWays-same set_associative c d e h = tt
HasWays-same pseudo_lru c d e h = rw e h
HasWays-same prefetch c d e h = tt

shared-IsCache :
    (design : CacheDesign) (name : Text) (value : ℕ) (c : ICacheConfig)
    → IsCache design c
    → OnOk (IsCache design) (set_shared_parameter c name value [])
shared-IsCache design name value c h =
    OnOk-imp (λ (d : ICacheConfig). IsGeometry d × (d.ways ≡ c.ways)) (IsCache design)
      (set_shared_parameter c name value []) (shared-IsGeometry name value c [] h.0)
      λ d k. (k.0, HasWays-same design c d k.1 h.1)

-- The designs without a constraint on the ways.
geometry-IsCache :
    (design : CacheDesign) (name : Text) (value : ℕ) (c : ICacheConfig)
    → ((d : ICacheConfig) → HasWays design d)
    → IsCache design c
    → OnOk (IsCache design) (
        or_else (set_shared_parameter c name value []) λ e.
          or_else
            (set_geometry_parameter c name value e false)
            λ e'. error (unknown_parameter name))
geometry-IsCache design name value c free h =
    OnOk-or_else (IsCache design) (set_shared_parameter c name value []) _
      (shared-IsCache design name value c h)
      λ e.
        OnOk-or_else (IsCache design) (set_geometry_parameter c name value e false) _
          (OnOk-imp IsGeometry (IsCache design) (set_geometry_parameter c name value e false)
            (IsGeometry-IsGeometry name value c e h.0) (λ d k. (k, free d)))
          λ e'. tt

pub set_cache-IsReady :
    (design : CacheDesign) (name : Text) (value : ℕ) (c : ICacheConfig)
    → IsCache design c
    → OnOk (IsCache design) (set_cache design c name value)
unfolding set_cache
set_cache-IsReady fully_associative name value c h =
    OnOk-or_else (IsCache fully_associative) (set_shared_parameter c name value []) _
      (shared-IsCache fully_associative name value c h)
      λ e.
        OnOk-imp IsGeometry (IsCache fully_associative) (set_lines c name value)
          (lines-IsGeometry name value c h.0) (λ d k. (k, tt))
set_cache-IsReady set_associative name value c h =
    geometry-IsCache set_associative name value c (λ d. tt) h
set_cache-IsReady pseudo_lru name value c h =
    OnOk-or_else (IsCache pseudo_lru) (set_shared_parameter c name value []) _
      (shared-IsCache pseudo_lru name value c h)
      λ e.
        OnOk-or_else (IsCache pseudo_lru) (set_geometry_parameter c name value e true) _
          (IsGeometry-HasWays name value c e h.0 h.1) (λ e'. tt)
set_cache-IsReady prefetch name value c h = geometry-IsCache prefetch name value c (λ d. tt) h
