-- ===== src/Component/Registry.antt =====
-- src/component/registry.cpp. The function-local vectors and the flag are the registry's state; a
-- call returns the new state and its result.
pub mod Coherence
use risc_e.Base.{ℕ, Bool, true, false, Option, none, some, List, [], ◌∷◌, ◌++◌, ◌||◌, if◌then◌else◌}
use risc_e.Base.Text.{Text, text, text_eq}
use risc_e.Predictor.Stack.{default_depth}
use risc_e.Predictor.Stack
use risc_e.Predictor.Designs.TwoBit
use risc_e.Predictor.Designs.Gshare
use risc_e.Predictor.Designs.Tournament
use risc_e.Component.Designs.{
  CacheDesign, fully_associative, set_associative, pseudo_lru, prefetch, Component, two_bit,
  always_not_taken, gshare, tournament, ras, pipeline, icache, l1_l2, cache_name, cache_config,
  l1_config, l2_config,
}

-- A factory gives no component only where the constructor would throw.
pub record ComponentEntry : Type 0 where
  pub name : Text
  pub type : Text
  pub factory : Option Component

pub record Registry : Type 0 where
  pub types : List Text
  pub entries : List ComponentEntry
  pub registered : Bool

abbrev pub unregistered : Registry
unregistered = record { types = []; entries = []; registered = false }

unfoldable pub register_type : Registry → Text → Registry
register_type r type = record r { types = r.types ++ (type ∷ []) }

unfoldable pub register_component_impl : Registry → Text → Text → Option Component → Registry
register_component_impl r type name factory = record r {
  entries = r.entries ++ (record { name = name; type = type; factory = factory } ∷ []);
}

abbrev pub make {ℓ} : {A : Type ℓ} → (A → Component) → Option A → Option Component
make wrap none = none
make wrap (some a) = some (wrap a)

-- The registrations that follow the four types, in order.
unfoldable pub register_components : Registry → Registry
unfolding register_component_impl
register_components r0 =
    let r1 =
      register_component_impl r0 (text "predictor") (text "two-bit")
        (make two_bit (TwoBit.new 1024 default_depth)) in
    let r2 =
      register_component_impl r1 (text "predictor") (text "always-not-taken")
        (some always_not_taken) in
    let r3 =
      register_component_impl r2 (text "predictor") (text "gshare")
        (make gshare (Gshare.new 12 default_depth)) in
    let r4 =
      register_component_impl r3 (text "predictor") (text "tournament")
        (make tournament (Tournament.new 10 default_depth)) in
    let r5 =
      register_component_impl r4 (text "predictor") (text "ras")
        (some (ras (Stack.new default_depth))) in
    let r6 =
      register_component_impl r5 (text "pipeline") (text "pipeline")
        (some (pipeline (record { stages = 5; stall_penalty = 0 }))) in
    let r7 =
      register_component_impl r6 (text "icache") (cache_name fully_associative)
        (some (icache fully_associative (cache_config fully_associative))) in
    let r8 =
      register_component_impl r7 (text "icache") (cache_name set_associative)
        (some (icache set_associative (cache_config set_associative))) in
    let r9 =
      register_component_impl r8 (text "icache") (cache_name pseudo_lru)
        (some (icache pseudo_lru (cache_config pseudo_lru))) in
    let r10 =
      register_component_impl r9 (text "icache") (cache_name prefetch)
        (some (icache prefetch (cache_config prefetch))) in
    register_component_impl r10 (text "cache") (text "l1-l2") (some (l1_l2 l1_config l2_config))

unfoldable pub register_all : Registry → Registry
unfolding register_type register_components
register_all r =
    if r.registered
    then r
    else register_components (
        register_type
          (register_type
            (register_type (register_type (record r { registered = true }) (text "predictor"))
              (text "pipeline"))
            (text "icache"))
          (text "cache"))

unfoldable pub component_types : Registry → Registry × List Text
unfolding register_all
component_types r = let r' = register_all r in (r', r'.types)

-- `type.empty()`
abbrev pub is_empty : Text → Bool
is_empty [] = true
is_empty (c ∷ cs) = false

-- The loop of component_names.
unfoldable pub names_of : Text → List ComponentEntry → List Text
names_of type [] = []
names_of type (e ∷ es) =
    if is_empty type || text_eq e.type type then e.name ∷ names_of type es else names_of type es

unfoldable pub component_names : Registry → Text → Registry × List Text
unfolding register_all names_of
component_names r type = let r' = register_all r in (r', names_of type r'.entries)

-- The loop of make_component.
unfoldable pub find_component : Text → List ComponentEntry → Option Component
find_component name [] = none
find_component name (e ∷ es) = if text_eq e.name name then e.factory else find_component name es

unfoldable pub make_component : Registry → Text → Registry × Option Component
unfolding register_all find_component
make_component r name = let r' = register_all r in (r', find_component name r'.entries)
