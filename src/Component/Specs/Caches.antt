-- ===== src/Component/Specs/Caches.antt =====
-- The names that set_parameter of the caches accepts: src/component/icache/ and
-- src/component/dcache/implementations/l1l2_cache.cpp.
use risc_e.Base.{
  ℕ, zero, suc, ◌≡◌, inl, inr, refl, sym, ap, ◌∙◌, subst, Bool, true, false, List, [], ◌∷◌, ◌++◌,
  take, drop, length, ltb, ◌&&◌, if◌then◌else◌, Bool-cases,
}
use risc_e.Base.Text.{Text, text, text_eq, text_eq_iff}
use risc_e.ICache.Cache.{ICacheConfig}
use risc_e.DCache.Cache.{DCacheConfig}
use risc_e.Component.Values.{Result, ok, error, ◌>>=◌, or_else, unknown_parameter}
use risc_e.Component.Designs.{
  CacheDesign, fully_associative, set_associative, pseudo_lru, prefetch, icache,
}
use risc_e.Component.Configure.Caches.{
  set_shared_parameter, set_geometry_parameter, set_lines, set_cache, set_level_parameter,
  set_levels,
}
use risc_e.Component.Registry.Coherence.{IsListed}
use risc_e.Component.Specs.{parameters, spec_names}
use risc_e.Component.Specs.Keys.{
  IsOk, bind-IsOk, or_else-IsOk, named, never, one_key, two_keys, IsListed-append,
}

shared-IsListed :
    (config : ICacheConfig) (n : Text) (v : ℕ) (err : Text)
    → IsOk (set_shared_parameter config n v err)
    → IsListed n (text "miss-penalty" ∷ text "line-size" ∷ [])
unfolding set_shared_parameter
shared-IsListed config n v err = two_keys n (text "miss-penalty") (text "line-size") _ _ _

geometry-IsListed :
    (config : ICacheConfig) (n : Text) (v : ℕ) (err : Text) (power_of_two_ways : Bool)
    → IsOk (set_geometry_parameter config n v err power_of_two_ways)
    → IsListed n (text "sets" ∷ text "ways" ∷ [])
unfolding set_geometry_parameter
geometry-IsListed config n v err power_of_two_ways = two_keys n (text "sets") (text "ways") _ _ _

lines-IsListed :
    (config : ICacheConfig) (n : Text) (v : ℕ)
    → IsOk (set_lines config n v)
    → IsListed n (text "ways" ∷ [])
unfolding set_lines
lines-IsListed config n v = one_key n (text "ways") _ _

-- The shared parameters, then those of the geometry.
geometric-IsListed :
    (config : ICacheConfig) (n : Text) (v : ℕ) (power_of_two_ways : Bool)
    → IsOk (
        or_else (set_shared_parameter config n v []) λ e.
          or_else
            (set_geometry_parameter config n v e power_of_two_ways)
            λ e'. error (unknown_parameter n))
    → IsListed n ((text "miss-penalty" ∷ text "line-size" ∷ []) ++ (text "sets" ∷ text "ways" ∷ []))
geometric-IsListed config n v power_of_two_ways h =
    IsListed-append n (text "miss-penalty" ∷ text "line-size" ∷ []) (text "sets" ∷ text "ways" ∷ [])
      (elim (or_else-IsOk (set_shared_parameter config n v []) _ h) [
        | inl shared ↦ inl (shared-IsListed config n v [] shared)
        | inr rest ↦
            inr
              (elim (or_else-IsOk (set_geometry_parameter config n v rest.0 power_of_two_ways) _
                rest.1) [
                  | inl geometry ↦ geometry-IsListed config n v rest.0 power_of_two_ways geometry
                  | inr refused ↦ never refused.1
                ])
      ])

pub cache-IsListed :
    (design : CacheDesign) (config : ICacheConfig) (n : Text) (v : ℕ)
    → IsOk (set_cache design config n v)
    → IsListed n (spec_names (parameters (icache design config)))
unfolding set_cache parameters
cache-IsListed fully_associative config n v h =
    IsListed-append n (text "miss-penalty" ∷ text "line-size" ∷ []) (text "ways" ∷ [])
      (elim (or_else-IsOk (set_shared_parameter config n v []) _ h) [
        | inl shared ↦ inl (shared-IsListed config n v [] shared)
        | inr rest ↦ inr (lines-IsListed config n v rest.1)
      ])
cache-IsListed set_associative config n v h = geometric-IsListed config n v false h
cache-IsListed pseudo_lru config n v h = geometric-IsListed config n v true h
cache-IsListed prefetch config n v h = geometric-IsListed config n v false h

abbrev level_keys : List Text
level_keys =
    text "hit-latency" ∷ text "miss-penalty" ∷ text "line-size" ∷ text "sets" ∷ text "ways" ∷ []

level-IsListed :
    (config : DCacheConfig) (n : Text) (v : ℕ) (err : Text)
    → IsOk (set_level_parameter config n v err)
    → IsListed n level_keys
unfolding set_level_parameter
level-IsListed config n v err h = elim (named n (text "hit-latency") _ _ h) [
  | inl here ↦ inl here
  | inr h2 ↦ inr (elim (named n (text "miss-penalty") _ _ h2) [
    | inl here ↦ inl here
    | inr h3 ↦ inr (elim (named n (text "line-size") _ _ h3) [
      | inl here ↦ inl here
      | inr h4 ↦ inr (two_keys n (text "sets") (text "ways") _ _ _ h4)
    ])
  ])
]

-- The keys of a level, behind its prefix.
abbrev prefixed : Text → List Text → List Text
prefixed p [] = []
prefixed p (k ∷ ks) = (p ++ k) ∷ prefixed p ks

IsListed-prefixed :
    (p n : Text) (ks : List Text) → IsListed n ks → IsListed (p ++ n) (prefixed p ks)
IsListed-prefixed p n [] h = absurd h
IsListed-prefixed p n (k ∷ ks) (inl h) = inl (ap (λ m. p ++ m) h)
IsListed-prefixed p n (k ∷ ks) (inr h) = inr (IsListed-prefixed p n ks h)

take-drop : (k : ℕ) (n : Text) → take k n ++ drop k n ≡ n
take-drop zero n = refl
take-drop (suc k) [] = refl
take-drop (suc k) (c ∷ n) = ap (λ m. c ∷ m) (take-drop k n)

-- A name whose rest is a key of a level is a name of that level.
prefixed-IsListed :
    (p n : Text)
    → ltb 3 (length n) && text_eq (take 3 n) p ≡ true
    → IsListed (drop 3 n) level_keys
    → IsListed n (prefixed p level_keys)
prefixed-IsListed p n h listed =
    subst (λ m. IsListed m (prefixed p level_keys))
      (ap (λ q. q ++ drop 3 n) (sym ((text_eq_iff (take 3 n) p).0 (second (ltb 3 (length n)) h)))
        ∙ take-drop 3 n)
      (IsListed-prefixed p (drop 3 n) level_keys listed)
  where
    second : (a : Bool) {b : Bool} → a && b ≡ true → b ≡ true
    second true h = h
    second false h = cc

-- What a level accepts.
level_or_else :
    (n : Text) (v : ℕ) (config : DCacheConfig) (put : DCacheConfig → DCacheConfig × DCacheConfig)
    → IsOk (
        or_else
          (set_level_parameter config (drop 3 n) v [] >>= λ level. ok (put level))
          λ e. error (unknown_parameter n))
    → IsListed (drop 3 n) level_keys
level_or_else n v config put h =
    elim (or_else-IsOk (set_level_parameter config (drop 3 n) v [] >>= λ level. ok (put level)) _
      h) [
        | inl accepted ↦
            let (level, same, rest) =
              bind-IsOk (set_level_parameter config (drop 3 n) v []) _ accepted in
            level-IsListed config (drop 3 n) v [] (level, same)
        | inr refused ↦ never refused.1
      ]

pub levels-IsListed :
    (a b : DCacheConfig) (n : Text) (v : ℕ)
    → IsOk (set_levels a b n v)
    → IsListed n (prefixed (text "l1-") level_keys ++ prefixed (text "l2-") level_keys)
unfolding set_levels
levels-IsListed a b n v h =
    IsListed-append n (prefixed (text "l1-") level_keys) (prefixed (text "l2-") level_keys)
      (elim (Bool-cases (ltb 3 (length n) && text_eq (take 3 n) (text "l1-"))) [
        | inl first ↦ inl (
            prefixed-IsListed (text "l1-") n first (
              level_or_else n v a (λ level. (level, b))
                (subst (λ t. IsOk (if t then level1 else other)) first h)))
        | inr not_first ↦ elim (Bool-cases (ltb 3 (length n) && text_eq (take 3 n) (text "l2-"))) [
          | inl second ↦ inr (
              prefixed-IsListed (text "l2-") n second (
                level_or_else n v b (λ level. (a, level))
                  (subst (λ t. IsOk (if t then level2 else error (unknown_parameter n))) second
                    (subst (λ t. IsOk (if t then level1 else other)) not_first h))))
          | inr neither ↦ never (
              subst (λ t. IsOk (if t then level2 else error (unknown_parameter n))) neither
                (subst (λ t. IsOk (if t then level1 else other)) not_first h))
        ]
      ])
  where
    level1 : Result (DCacheConfig × DCacheConfig)
    level1 =
        or_else (set_level_parameter a (drop 3 n) v [] >>= λ level. ok (level, b))
          (λ e. error (unknown_parameter n))

    level2 : Result (DCacheConfig × DCacheConfig)
    level2 =
        or_else (set_level_parameter b (drop 3 n) v [] >>= λ level. ok (a, level))
          (λ e. error (unknown_parameter n))

    other : Result (DCacheConfig × DCacheConfig)
    other =
        if ltb 3 (length n) && text_eq (take 3 n) (text "l2-")
        then level2
        else error (unknown_parameter n)
