-- ===== src/Cli/Comparison/Baseline.antt =====
-- What the rows of a comparison of predictors are measured against: build_comparison_rows of
-- src/main.cpp with the costs and the registry.
use risc_e.Base.{
  ◌≡◌, refl, sym, ap, ◌∙◌, subst, Option, none, some, List, [], ◌∷◌, ◌++◌, All, All-append, inl,
  inr,
}
use risc_e.Base.Text.{Text, text}
use risc_e.Component.Designs.{
  Component, always_not_taken, type, two_bit, gshare, tournament, ras, pipeline, icache, l1_l2,
}
use risc_e.Component.Costs.{
  CycleCost, RunContext, cycle_cost, reset, IsComparable, cycle_cost-IsComparable,
}
use risc_e.Component.Configure.Classes.{SameClass-type}
use risc_e.Component.Registry.{unregistered, component_names}
use risc_e.Component.Registry.Coherence.{IsListed, IsBuilt, make_component-component_names}
use risc_e.Cli.Overrides.{ParamOverride, build, apply_overrides}
use risc_e.Cli.Overrides.Validated.{apply_overrides-SameClass}
use risc_e.Cli.Comparison.{
  ComparisonRow, ComparisonResult, compare_component, compare_components, compare_made, push_cost,
  push_row, build_comparison_rows,
}

abbrev predictor : Text
predictor = text "predictor"

abbrev pub names_in : List ComparisonRow → List Text
names_in [] = []
names_in (row ∷ rows) = row.name ∷ names_in rows

names_in-append :
    (rows : List ComparisonRow) (row : ComparisonRow) (names : List Text)
    → names_in (rows ++ (row ∷ [])) ++ names ≡ names_in rows ++ (row.name ∷ names)
names_in-append [] row names = refl
names_in-append (r ∷ rows) row names = ap (λ ns. r.name ∷ ns) (names_in-append rows row names)

++_nil {ℓ} : {A : Type ℓ} (xs : List A) → xs ++ [] ≡ xs
++_nil [] = refl
++_nil (x ∷ xs) = ap (λ ys. x ∷ ys) (++_nil xs)

All-listed :
    (P : Text → Type 0) (names : List Text) → ((n : Text) → IsListed n names → P n) → All P names
All-listed P [] h = tt
All-listed P (n ∷ names) h = (h n (inl refl), All-listed P names (λ m listed. h m (inr listed)))

type-reset : (c : Component) → type (reset c) ≡ type c
unfolding reset
type-reset (two_bit s) = refl
type-reset always_not_taken = refl
type-reset (gshare s) = refl
type-reset (tournament s) = refl
type-reset (ras s) = refl
type-reset (pipeline m) = refl
type-reset (icache design c) = refl
type-reset (l1_l2 a b) = refl

-- The component of a row is still a predictor after its overrides and its reset.
type-configured :
    (c : Component) (os : List ParamOverride) → type (reset (apply_overrides c os)) ≡ type c
type-configured c os =
    type-reset (apply_overrides c os) ∙ sym (SameClass-type (apply_overrides-SameClass c os))

-- A row against the cost of always-not-taken.
abbrev pub IsMeasured : CycleCost → ComparisonRow → Type 0
IsMeasured base row = row.cycles_before ≡ base.total_cycles

-- What one round adds for a predictor: one row, measured against always-not-taken.
record IsExtended (base : CycleCost) (n : Text) (result next : ComparisonResult) : Type 0 where
  row : ComparisonRow
  named : row.name ≡ n
  measured : IsMeasured base row
  rows : next.rows ≡ result.rows ++ (row ∷ [])

push_cost-IsExtended :
    (base : CycleCost) (result : ComparisonResult) (n : Text) (k : Option CycleCost)
    → IsComparable k (some base)
    → IsExtended base n result (push_cost n k result)
unfolding push_cost push_row
push_cost-IsExtended base result n none h = absurd h
push_cost-IsExtended base result n (some k) h = record {
  row = _;
  named = refl;
  measured = h.0;
  rows = refl;
}

compare_made-IsExtended :
    (ctx : RunContext) (os : List ParamOverride) (base : CycleCost) (result : ComparisonResult)
    (n : Text) (c : Component)
    → cycle_cost always_not_taken ctx ≡ some base
    → type c ≡ predictor
    → IsExtended base n result (compare_made ctx os result n (some c))
unfolding compare_made
compare_made-IsExtended ctx os base result n c based typed =
    let configured = reset (apply_overrides c os) in
    push_cost-IsExtended base result n (cycle_cost configured ctx) (
      subst (IsComparable (cycle_cost configured ctx)) based
        (cycle_cost-IsComparable configured ctx (type-configured c os ∙ typed)))

compare_component-IsExtended :
    (ctx : RunContext) (os : List ParamOverride) (base : CycleCost) (result : ComparisonResult)
    (n : Text)
    → cycle_cost always_not_taken ctx ≡ some base
    → IsBuilt (build n) n predictor
    → IsExtended base n result (compare_component ctx os result n)
unfolding compare_component
compare_component-IsExtended ctx os base result n based (c, built, named, inl untyped) = cc
compare_component-IsExtended ctx os base result n based (c, built, named, inr typed) =
    subst (λ o. IsExtended base n result (compare_made ctx os result n o)) (sym built)
      (compare_made-IsExtended ctx os base result n c based typed)

-- What the loop makes of a list of predictors.
record IsTabulated (base : CycleCost) (names : List Text) (result next : ComparisonResult)
    : Type 0 where
  measured : All (IsMeasured base) result.rows → All (IsMeasured base) next.rows
  named : names_in next.rows ≡ names_in result.rows ++ names

compare_components-IsTabulated :
    (ctx : RunContext) (os : List ParamOverride) (base : CycleCost) (result : ComparisonResult)
    (names : List Text)
    → cycle_cost always_not_taken ctx ≡ some base
    → All (λ n. IsBuilt (build n) n predictor) names
    → IsTabulated base names result (compare_components ctx os result names)
unfolding compare_components
compare_components-IsTabulated ctx os base result [] based built = record {
  measured = λ h. h;
  named = sym (++_nil (names_in result.rows));
}
compare_components-IsTabulated ctx os base result (n ∷ names) based (first, rest) =
    let next = compare_component ctx os result n in
    let step = compare_component-IsExtended ctx os base result n based first in
    let later = compare_components-IsTabulated ctx os base next names based rest in
    record {
      measured = λ h. later.measured (
          subst (All (IsMeasured base)) (sym step.rows)
            (All-append (IsMeasured base) result.rows (step.row ∷ []) h (step.measured, tt)));
      named =
          later.named
          ∙ ap (λ rows. names_in rows ++ names) step.rows
          ∙ names_in-append result.rows step.row names
          ∙ ap (λ m. names_in result.rows ++ (m ∷ names)) step.named;
    }

-- When always-not-taken has a cost for the run, the comparison of the predictors, whatever the
-- overrides, has exactly one row for each predictor of the registry, in the registry's order, and the
-- cycles before are in each row those that always-not-taken takes.
pub build_comparison_rows-baseline :
    (ctx : RunContext) (os : List ParamOverride) (base : CycleCost)
    → cycle_cost always_not_taken ctx ≡ some base
    → All (IsMeasured base) (build_comparison_rows predictor [] ctx os).rows
      × (names_in (build_comparison_rows predictor [] ctx os).rows
          ≡ (component_names unregistered predictor).1)
unfolding build_comparison_rows build
build_comparison_rows-baseline ctx os base based =
    let table =
      compare_components-IsTabulated ctx os base
        (record { type = predictor; baseline = []; rows = [] })
        (component_names unregistered predictor).1 based
        (All-listed (λ n. IsBuilt (build n) n predictor) (component_names unregistered predictor).1
          (λ n listed. make_component-component_names [] n predictor listed)) in
    (table.measured tt, table.named)
