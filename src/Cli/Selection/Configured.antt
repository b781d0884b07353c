-- ===== src/Cli/Selection/Configured.antt =====
-- Main in src/main.cpp runs the components that were asked for, as they were configured.
use risc_e.Base.{
  ◌≡◌, refl, sym, ap, ◌∙◌, subst, true, false, Option, none, some, List, if◌then◌else◌, Bool-cases,
  inl, inr,
}
use risc_e.Base.Text.{Text, text, text_eq, text_eq_iff}
use risc_e.Component.Designs.{Component, type, name}
use risc_e.Component.Configure.Ready.{IsReady}
use risc_e.Component.Configure.Classes.{SameClass-refl}
use risc_e.Component.Registry.Coherence.{name-make_component}
use risc_e.Cli.Overrides.{ParamOverride, build, validate_overrides, apply_overrides}
use risc_e.Cli.Overrides.Ready.{apply_overrides-build}
use risc_e.Cli.Overrides.Validated.{NoneFails, validate_overrides-NoneFails}
use risc_e.Cli.Options.{Options}
use risc_e.Cli.Selection.{Run, Selection, active, build_of}

-- A component that was built for a name, has a type and took every override for it.
pub record IsConfigured (t n : Text) (os : List ParamOverride) (c : Component) : Type 0 where
  pub fresh : Component
  pub built : build n ≡ some fresh
  pub typed : type fresh ≡ t
  pub configured : c ≡ apply_overrides fresh os
  pub taken : NoneFails fresh os
  pub ready : IsReady c

abbrev pub IsSelected : Options → Run → Type 0
IsSelected o r =
    IsConfigured (text "predictor") o.predictor_name o.overrides r.predictor
    × IsConfigured (text "icache") o.icache_name o.overrides r.icache
    × IsConfigured (text "cache") o.dcache_name o.overrides r.dcache

build_of-some :
    (t n : Text) (c : Component) → build_of t n ≡ some c → (build n ≡ some c) × (type c ≡ t)
unfolding build_of
build_of-some t n c h = built (build n) refl h
  where
    built :
        (o : Option Component)
        → build n ≡ o
        → elim o as (λ _. Option Component) [
          | none ↦ none
          | some d ↦ if text_eq (type d) t then some d else none
        ]
          ≡ some c
        → (build n ≡ some c) × (type c ≡ t)
    built none e g = cc
    built (some d) e g = elim (Bool-cases (text_eq (type d) t)) [
      | inl typed ↦
          let same : d ≡ c = cc (typed_case typed) in
          (e ∙ ap some same, sym (ap type same) ∙ (text_eq_iff (type d) t).0 typed)
      | inr other ↦ cc (other_case other)
    ]
      where
        typed_case : text_eq (type d) t ≡ true → ◌≡◌ {A = Option Component} (some d) (some c)
        typed_case b = subst (λ b. (if b then some d else none) ≡ some c) b g

        other_case : text_eq (type d) t ≡ false → ◌≡◌ {A = Option Component} none (some c)
        other_case b = subst (λ b. (if b then some d else none) ≡ some c) b g

configured :
    (o : Options) (t n : Text) (c : Component)
    → validate_overrides o.overrides o.comparison_mode (active o) ≡ none
    → build_of t n ≡ some c
    → IsConfigured t n o.overrides (apply_overrides c o.overrides)
unfolding build
configured o t n c valid h =
    let (built, typed) = build_of-some t n c h in
    record {
      fresh = c;
      built = built;
      typed = typed;
      configured = refl;
      taken =
          validate_overrides-NoneFails o.overrides o.comparison_mode (active o) c c
            (rw (name-build n built) built) (SameClass-refl c) valid;
      ready = apply_overrides-build n o.overrides built;
    }
  where
    name-build : (n : Text) → build n ≡ some c → name c ≡ n
    name-build n e = name-make_component n e
