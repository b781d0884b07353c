-- ===== src/Cli/Overrides/Ready.antt =====
-- What apply_overrides of src/main.cpp makes of the components that the registry builds.
use risc_e.Base.{
  ℕ, ◌≡◌, refl, arith, not, Option, none, some, List, [], ◌∷◌, All, if◌then◌else◌, if-cases, subst,
}
use risc_e.Base.Text.{Text, text_eq}
use risc_e.Predictor.Stack.{default_depth, IsBounded}
use risc_e.Predictor.Stack
use risc_e.Predictor.Designs.TwoBit
use risc_e.Predictor.Designs.Gshare
use risc_e.Predictor.Designs.Tournament
use risc_e.Component.Values.{Result, ok, error, or_throw}
use risc_e.Component.Designs.{Component, two_bit, gshare, tournament, name}
use risc_e.Component.Configure.{set_parameter}
use risc_e.Component.Configure.Ready.{OnOk, IsReady}
use risc_e.Component.Configure.Ready.Parameters.{set_parameter-IsReady}
use risc_e.Component.Configure.Ready.Predictors.{
  configure-IsTwoBit, configure-gshare, configure-tournament,
}
use risc_e.Predictor.Designs.Validity.{IsTwoBit}
use risc_e.Component.Registry.{
  ComponentEntry, make, register_all, unregistered, find_component, make_component,
}
use risc_e.Cli.Overrides.{ParamOverride, build, apply_override, apply_overrides}

-- What holds of the component that a factory gives.
abbrev OnSome {ℓ κ} : {A : Type ℓ} → (A → Type κ) → Option A → Type κ
OnSome P none = Unit
OnSome P (some a) = P a

find_component-IsReady :
    (n : Text) (es : List ComponentEntry)
    → All (λ e. OnSome IsReady e.factory) es
    → OnSome IsReady (find_component n es)
unfolding find_component
find_component-IsReady n [] h = tt
find_component-IsReady n (e ∷ es) h =
    if-cases (OnSome IsReady) (text_eq e.name n) _ _ (λ _. h.0)
      (λ _. find_component-IsReady n es h.1)

made-IsReady {ℓ} :
    {A : Type ℓ} (P : A → Type 0) (wrap : A → Component) (o : Option A) (t : Text)
    → ((a : A) → P a → IsReady (wrap a))
    → OnOk P (or_throw o t)
    → OnSome IsReady (make wrap o)
made-IsReady P wrap none t k h = tt
made-IsReady P wrap (some a) t k h = k a h

stack-IsBounded : (depth : ℕ) → IsBounded (Stack.new depth)
unfolding Stack.new
stack-IsBounded depth = omega arith

new-two_bit-IsReady : OnSome IsReady (make two_bit (TwoBit.new 1024 default_depth))
unfolding TwoBit.new
new-two_bit-IsReady =
    made-IsReady IsTwoBit two_bit (TwoBit.new 1024 default_depth) [] (λ s h. h)
      (configure-IsTwoBit 1024 (Stack.new default_depth) [] (stack-IsBounded default_depth))

new-gshare-IsReady : OnSome IsReady (make gshare (Gshare.new 12 default_depth))
unfolding Gshare.new
new-gshare-IsReady =
    made-IsReady (λ s. IsReady (gshare s)) gshare (Gshare.new 12 default_depth) [] (λ s h. h)
      (configure-gshare 12 0 (Stack.new default_depth) [] refl (stack-IsBounded default_depth))

new-tournament-IsReady : OnSome IsReady (make tournament (Tournament.new 10 default_depth))
unfolding Tournament.new
new-tournament-IsReady =
    made-IsReady (λ s. IsReady (tournament s)) tournament (Tournament.new 10 default_depth) []
      (λ s h. h)
      (configure-tournament 10 0 (Stack.new default_depth) [] refl (stack-IsBounded default_depth))

entries-IsReady : All (λ e. OnSome IsReady e.factory) (register_all unregistered).entries
unfolding register_all
entries-IsReady = (
  new-two_bit-IsReady,
  (
    tt,
    (new-gshare-IsReady, (new-tournament-IsReady, (stack-IsBounded default_depth, ground arith))),
  ),
)

build-IsReady : (n : Text) → OnSome IsReady (build n)
unfolding build make_component
build-IsReady n = find_component-IsReady n (register_all unregistered).entries entries-IsReady

apply_override-IsReady :
    (c : Component) (o : ParamOverride) → IsReady c → IsReady (apply_override c o)
unfolding apply_override
apply_override-IsReady c o h =
    applied (set_parameter c o.name o.value) (set_parameter-IsReady c o.name o.value h)
  where
    applied :
        (r : Result Component)
        → OnOk IsReady r
        → IsReady (elim r as (λ _. Component) [ ok d ↦ d | error e ↦ c ])
    applied (ok d) k = k
    applied (error e) k = h

apply_overrides-IsReady :
    (c : Component) (os : List ParamOverride) → IsReady c → IsReady (apply_overrides c os)
unfolding apply_overrides
apply_overrides-IsReady c [] h = h
apply_overrides-IsReady c (o ∷ os) h =
    apply_overrides-IsReady (if not (text_eq o.component (name c)) then c else apply_override c o)
      os
      (if-cases IsReady (not (text_eq o.component (name c))) c (apply_override c o) (λ _. h)
        (λ _. apply_override-IsReady c o h))

-- Whatever the overrides, a component that the registry builds for a name is one that a run can start
-- with after apply_overrides: its tables have the sizes that its fields say, its history is clear, no
-- size of a cache is zero, and the ways of a PLRU cache are a power of two.
pub apply_overrides-build :
    (n : Text) (os : List ParamOverride) {c : Component}
    → build n ≡ some c
    → IsReady (apply_overrides c os)
apply_overrides-build n os {c} e =
    apply_overrides-IsReady c os (ready (build n) (build-IsReady n) e)
  where
    ready : (o : Option Component) → OnSome IsReady o → o ≡ some c → IsReady c
    ready none h e = cc
    ready (some d) h e = subst IsReady (some_value e) h
      where
        some_value : ◌≡◌ {A = Option Component} (some d) (some c) → d ≡ c
        some_value e = cc
