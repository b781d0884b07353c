-- ===== src/Component/Configure/Outcome.antt =====
-- Whether set_parameter of a component succeeds depends on its class, the name and the value alone,
-- not on what was configured before: the set_parameter functions below src/component/.
use risc_e.Base.{
  ℕ, ◌≡◌, refl, ap, ◌∙◌, subst, arith, Bool, true, false, Option, none, some, [], drop,
}
use risc_e.Base.Text.{Text}
use risc_e.Predictor.Stack.{ReturnAddressStack}
use risc_e.Predictor.Designs.TwoBit
use risc_e.Predictor.Designs.TwoBit.{TwoBit}
use risc_e.Predictor.Designs.Gshare
use risc_e.Predictor.Designs.Gshare.{Gshare}
use risc_e.Predictor.Designs.Tournament
use risc_e.Predictor.Designs.Tournament.{Tournament}
use risc_e.Pipeline.{PipelineModel}
use risc_e.ICache.Cache.{ICacheConfig}
use risc_e.DCache.Cache.{DCacheConfig}
use risc_e.Component.Values.{Result, ok, error, ◌>>=◌, or_else, parse_parameter_value}
use risc_e.Component.Designs.{
  CacheDesign, fully_associative, set_associative, pseudo_lru, prefetch, Component, two_bit,
  always_not_taken, gshare, tournament, ras, pipeline, icache, l1_l2, name,
}
use risc_e.Component.Configure.{set_parameter}
use risc_e.Component.Configure.Predictors.{
  set_ras_depth_parameter, set_two_bit, set_gshare, set_tournament, set_ras, set_pipeline,
}
use risc_e.Component.Configure.Caches.{
  set_shared_parameter, set_geometry_parameter, set_lines, set_cache, set_level_parameter,
  set_levels,
}
use risc_e.Component.Configure.Classes.{
  SameClass, two_bits, always_not_takens, gshares, tournaments, stacks, pipelines, caches, levels,
}

-- The message of a failure.
abbrev pub failure {ℓ} : {A : Type ℓ} → Result A → Option Text
failure (ok a) = none
failure (error e) = some e

module _ (name value : Text) where
  set_ras_depth-failure :
      (s t : ReturnAddressStack)
      → failure (set_ras_depth_parameter value s) ≡ failure (set_ras_depth_parameter value t)
  unfolding set_ras_depth_parameter
  set_ras_depth-failure s t = ground arith

  two_bit-failure :
      (s t : TwoBit) → failure (set_two_bit s name value) ≡ failure (set_two_bit t name value)
  unfolding set_two_bit TwoBit.configure
  two_bit-failure s t = ground (arith, set_ras_depth-failure s.ras t.ras)

  gshare-failure :
      (s t : Gshare) → failure (set_gshare s name value) ≡ failure (set_gshare t name value)
  unfolding set_gshare Gshare.configure
  gshare-failure s t = ground (arith, set_ras_depth-failure s.ras t.ras)

  tournament-failure :
      (s t : Tournament)
      → failure (set_tournament s name value) ≡ failure (set_tournament t name value)
  unfolding set_tournament Tournament.configure
  tournament-failure s t = ground (arith, set_ras_depth-failure s.ras t.ras)

  ras-failure :
      (s t : ReturnAddressStack) → failure (set_ras s name value) ≡ failure (set_ras t name value)
  unfolding set_ras
  ras-failure s t = ground (arith, set_ras_depth-failure s t)

  pipeline-failure :
      (m n : PipelineModel)
      → failure (set_pipeline m name value) ≡ failure (set_pipeline n name value)
  unfolding set_pipeline
  pipeline-failure m n = ground arith

module _ (name : Text) (value : ℕ) where
  shared-failure :
      (c d : ICacheConfig) (e : Text)
      → failure (set_shared_parameter c name value e)
        ≡ failure (set_shared_parameter d name value e)
  unfolding set_shared_parameter
  shared-failure c d e = ground arith

  geometry-failure :
      (c d : ICacheConfig) (e : Text) (b : Bool)
      → failure (set_geometry_parameter c name value e b)
        ≡ failure (set_geometry_parameter d name value e b)
  unfolding set_geometry_parameter
  geometry-failure c d e b = ground arith

  lines-failure :
      (c d : ICacheConfig) → failure (set_lines c name value) ≡ failure (set_lines d name value)
  unfolding set_lines
  lines-failure c d = ground arith

  level-failure :
      (c d : DCacheConfig) (e : Text)
      → failure (set_level_parameter c name value e) ≡ failure (set_level_parameter d name value e)
  unfolding set_level_parameter
  level-failure c d e = ground arith

or_else-failure {ℓ} :
    {A : Type ℓ} (r s : Result A) (f g : Text → Result A)
    → failure r ≡ failure s
    → ((e : Text) → failure (f e) ≡ failure (g e))
    → failure (or_else r f) ≡ failure (or_else s g)
or_else-failure (ok a) (ok b) f g h k = refl
or_else-failure (ok a) (error e) f g h k = cc
or_else-failure (error d) (ok b) f g h k = cc
or_else-failure (error d) (error e) f g h k = k d ∙ ap (λ t. failure (g t)) (error_text h)
  where
    error_text : ◌≡◌ {A = Option Text} (some d) (some e) → d ≡ e
    error_text same = cc

bind-failure {ℓ κ} :
    {A : Type ℓ} {B : Type κ} (r s : Result A) (f g : A → B)
    → failure r ≡ failure s
    → failure (r >>= λ a. ok (f a)) ≡ failure (s >>= λ a. ok (g a))
bind-failure (ok a) (ok b) f g h = refl
bind-failure (ok a) (error e) f g h = cc
bind-failure (error d) (ok b) f g h = cc
bind-failure (error d) (error e) f g h = h

cache-failure :
    (design : CacheDesign) (c d : ICacheConfig) (name : Text) (value : ℕ)
    → failure (set_cache design c name value) ≡ failure (set_cache design d name value)
unfolding set_cache
cache-failure fully_associative c d name value =
    or_else-failure _ _ _ _ (shared-failure name value c d []) λ e. lines-failure name value c d
cache-failure set_associative c d name value =
    or_else-failure _ _ _ _ (shared-failure name value c d [])
      λ e. or_else-failure _ _ _ _ (geometry-failure name value c d e false) λ e'. refl
cache-failure pseudo_lru c d name value =
    or_else-failure _ _ _ _ (shared-failure name value c d [])
      λ e. or_else-failure _ _ _ _ (geometry-failure name value c d e true) λ e'. refl
cache-failure prefetch c d name value =
    or_else-failure _ _ _ _ (shared-failure name value c d [])
      λ e. or_else-failure _ _ _ _ (geometry-failure name value c d e false) λ e'. refl

levels-failure :
    (a b c d : DCacheConfig) (name : Text) (value : ℕ)
    → failure (set_levels a b name value) ≡ failure (set_levels c d name value)
unfolding set_levels
levels-failure a b c d name value =
    ground
      (arith, level-failure (drop 3 name) value a c [], level-failure (drop 3 name) value b d [])

-- Whether set_parameter succeeds, and with which message it fails, depends on the class of the
-- component, the name and the value, and on nothing that was configured before.
pub set_parameter-failure :
    {c d : Component} (name value : Text)
    → SameClass c d
    → failure (set_parameter c name value) ≡ failure (set_parameter d name value)
unfolding set_parameter
set_parameter-failure name value (two_bits s t) =
    bind-failure _ _ two_bit two_bit (two_bit-failure name value s t)
set_parameter-failure name value always_not_takens = refl
set_parameter-failure name value (gshares s t) =
    bind-failure _ _ gshare gshare (gshare-failure name value s t)
set_parameter-failure name value (tournaments s t) =
    bind-failure _ _ tournament tournament (tournament-failure name value s t)
set_parameter-failure name value (stacks s t) =
    bind-failure _ _ ras ras (ras-failure name value s t)
set_parameter-failure name value (pipelines m n) =
    bind-failure _ _ pipeline pipeline (pipeline-failure name value m n)
set_parameter-failure name value (caches design c d) = after_parse (parse_parameter_value value)
  where
    after_parse :
        (r : Result ℕ)
        → failure (r >>= λ v. set_cache design c name v >>= λ x. ok (icache design x))
          ≡ failure (r >>= λ v. set_cache design d name v >>= λ x. ok (icache design x))
    after_parse (ok v) =
        bind-failure _ _ (icache design) (icache design) (cache-failure design c d name v)
    after_parse (error e) = refl
set_parameter-failure name value (levels a b c d) = after_parse (parse_parameter_value value)
  where
    after_parse :
        (r : Result ℕ)
        → failure (r >>= λ v. set_levels a b name v >>= λ x. ok (l1_l2 x.0 x.1))
          ≡ failure (r >>= λ v. set_levels c d name v >>= λ x. ok (l1_l2 x.0 x.1))
    after_parse (ok v) =
        bind-failure _ _ (λ x. l1_l2 x.0 x.1) (λ x. l1_l2 x.0 x.1) (levels-failure a b c d name v)
    after_parse (error e) = refl

bind-ok {ℓ} :
    {A : Type ℓ} (r : Result A) (f : A → Component) {d : Component}
    → (r >>= λ a. ok (f a)) ≡ ok d
    → (a : A) × (f a ≡ d)
bind-ok (ok a) f h = (a, ok_value h)
  where
    ok_value : {c e : Component} → ◌≡◌ {A = Result Component} (ok c) (ok e) → c ≡ e
    ok_value same = cc
bind-ok (error e) f h = cc

to_class : (c : Component) {d e : Component} → d ≡ e → SameClass c d → SameClass c e
to_class c same h = subst (SameClass c) same h

pub set_parameter-SameClass :
    (c : Component) (name value : Text) {d : Component}
    → set_parameter c name value ≡ ok d
    → SameClass c d
unfolding set_parameter
set_parameter-SameClass (two_bit s) name value h =
    let (a, e) = bind-ok (set_two_bit s name value) two_bit h in to_class _ e (two_bits s a)
set_parameter-SameClass always_not_taken name value h = cc
set_parameter-SameClass (gshare s) name value h =
    let (a, e) = bind-ok (set_gshare s name value) gshare h in to_class _ e (gshares s a)
set_parameter-SameClass (tournament s) name value h =
    let (a, e) = bind-ok (set_tournament s name value) tournament h in
    to_class _ e (tournaments s a)
set_parameter-SameClass (ras s) name value h =
    let (a, e) = bind-ok (set_ras s name value) ras h in to_class _ e (stacks s a)
set_parameter-SameClass (pipeline m) name value h =
    let (a, e) = bind-ok (set_pipeline m name value) pipeline h in to_class _ e (pipelines m a)
set_parameter-SameClass (icache design c) name value h = parsed (parse_parameter_value value) h
  where
    parsed :
        (r : Result ℕ) {d : Component}
        → (r >>= λ v. set_cache design c name v >>= λ x. ok (icache design x)) ≡ ok d
        → SameClass (icache design c) d
    parsed (ok v) g =
        let (a, e) = bind-ok (set_cache design c name v) (icache design) g in
        to_class _ e (caches design c a)
    parsed (error e) g = cc
set_parameter-SameClass (l1_l2 a b) name value h = parsed (parse_parameter_value value) h
  where
    parsed :
        (r : Result ℕ) {d : Component}
        → (r >>= λ v. set_levels a b name v >>= λ x. ok (l1_l2 x.0 x.1)) ≡ ok d
        → SameClass (l1_l2 a b) d
    parsed (ok v) g =
        let (x, e) = bind-ok (set_levels a b name v) (λ x. l1_l2 x.0 x.1) g in
        to_class _ e (levels a b x.0 x.1)
    parsed (error e) g = cc
