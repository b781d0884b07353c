-- ===== src/Component/Specs/Catalogue.antt =====
-- parameters() and set_parameter of a component agree on the names.
use risc_e.Base.{◌≡◌, ◌↔◌, inl, inr, refl, subst, List, [], ◌∷◌, All}
use risc_e.Base.Text.{Text, text, text_eq, to_string}
use risc_e.Predictor.Designs.TwoBit
use risc_e.Predictor.Designs.TwoBit.{TwoBit}
use risc_e.Predictor.Designs.Gshare
use risc_e.Predictor.Designs.Gshare.{Gshare}
use risc_e.Predictor.Designs.Tournament
use risc_e.Predictor.Designs.Tournament.{Tournament}
use risc_e.Predictor.Stack.{ReturnAddressStack}
use risc_e.Pipeline.{PipelineModel}
use risc_e.Component.Values.{ok, parse_parameter_value}
use risc_e.Component.Designs.{
  Component, fully_associative, set_associative, pseudo_lru, prefetch, two_bit, always_not_taken,
  gshare, tournament, ras, pipeline, icache, l1_l2,
}
use risc_e.Component.Configure.{set_parameter}
use risc_e.Component.Configure.Predictors.{
  set_two_bit, set_gshare, set_tournament, set_ras, set_pipeline,
}
use risc_e.Component.Configure.Caches.{set_cache, set_levels}
use risc_e.Component.Registry.Coherence.{IsListed}
use risc_e.Component.Specs.{ParamSpec, parameters, spec_names}
use risc_e.Component.Specs.Keys.{IsOk, bind-IsOk, never, one_key, two_keys}
use risc_e.Component.Specs.Caches.{cache-IsListed, levels-IsListed}

abbrev IsAccepted : Component → ParamSpec → Type 0
IsAccepted c p = (d : Component) × (set_parameter c p.name (to_string p.lowest) ≡ ok d)

-- Every parameter takes the lowest value that its description gives.
parameters-IsAccepted : (c : Component) → All (IsAccepted c) (parameters c)
unfolding parameters set_parameter TwoBit.configure Gshare.configure Tournament.configure text_eq
    to_string parse_parameter_value
parameters-IsAccepted (two_bit s) = ((_, refl), ((_, refl), tt))
parameters-IsAccepted always_not_taken = tt
parameters-IsAccepted (gshare s) = ((_, refl), ((_, refl), tt))
parameters-IsAccepted (tournament s) = ((_, refl), ((_, refl), tt))
parameters-IsAccepted (ras s) = ((_, refl), tt)
parameters-IsAccepted (pipeline m) = ((_, refl), ((_, refl), tt))
parameters-IsAccepted (icache fully_associative config) = ((_, refl), ((_, refl), ((_, refl), tt)))
parameters-IsAccepted (icache set_associative config) =
    ((_, refl), ((_, refl), ((_, refl), ((_, refl), tt))))
parameters-IsAccepted (icache pseudo_lru config) =
    ((_, refl), ((_, refl), ((_, refl), ((_, refl), tt))))
parameters-IsAccepted (icache prefetch config) =
    ((_, refl), ((_, refl), ((_, refl), ((_, refl), tt))))
parameters-IsAccepted (l1_l2 a b) = (
  (_, refl),
  (
    (_, refl),
    (
      (_, refl),
      ((_, refl), ((_, refl), ((_, refl), ((_, refl), ((_, refl), ((_, refl), ((_, refl), tt))))))),
    ),
  ),
)

-- Some text is a value for the parameter.
abbrev pub Accepts : Component → Text → Type 0
Accepts c n = (v : Text) × (d : Component) × (set_parameter c n v ≡ ok d)

listed-Accepts :
    (c : Component) (n : Text) (ps : List ParamSpec)
    → All (IsAccepted c) ps
    → IsListed n (spec_names ps)
    → Accepts c n
listed-Accepts c n [] h listed = absurd listed
listed-Accepts c n (p ∷ ps) h (inl here) = (
  to_string p.lowest,
  h.0.0,
  subst (λ m. set_parameter c m (to_string p.lowest) ≡ ok (h.0.0)) here h.0.1,
)
listed-Accepts c n (p ∷ ps) h (inr later) = listed-Accepts c n ps h.1 later

two_bit-IsListed :
    (s : TwoBit) (n v : Text)
    → IsOk (set_two_bit s n v)
    → IsListed n (text "table-size" ∷ text "ras-depth" ∷ [])
unfolding set_two_bit
two_bit-IsListed s n v = two_keys n (text "table-size") (text "ras-depth") _ _ _

gshare-IsListed :
    (s : Gshare) (n v : Text)
    → IsOk (set_gshare s n v)
    → IsListed n (text "history-bits" ∷ text "ras-depth" ∷ [])
unfolding set_gshare
gshare-IsListed s n v = two_keys n (text "history-bits") (text "ras-depth") _ _ _

tournament-IsListed :
    (s : Tournament) (n v : Text)
    → IsOk (set_tournament s n v)
    → IsListed n (text "history-bits" ∷ text "ras-depth" ∷ [])
unfolding set_tournament
tournament-IsListed s n v = two_keys n (text "history-bits") (text "ras-depth") _ _ _

ras-IsListed :
    (s : ReturnAddressStack) (n v : Text)
    → IsOk (set_ras s n v)
    → IsListed n (text "ras-depth" ∷ [])
unfolding set_ras
ras-IsListed s n v = one_key n (text "ras-depth") _ _

pipeline-IsListed :
    (m : PipelineModel) (n v : Text)
    → IsOk (set_pipeline m n v)
    → IsListed n (text "stages" ∷ text "stall-penalty" ∷ [])
unfolding set_pipeline
pipeline-IsListed m n v h =
    two_keys n (text "stages") (text "stall-penalty") _ _ _
      (bind-IsOk (parse_parameter_value v) _ h).2

accepted-IsListed :
    (c : Component) (n v : Text)
    → IsOk (set_parameter c n v)
    → IsListed n (spec_names (parameters c))
unfolding set_parameter parameters
accepted-IsListed (two_bit s) n v h =
    let (t, same, rest) = bind-IsOk (set_two_bit s n v) _ h in two_bit-IsListed s n v (t, same)
accepted-IsListed always_not_taken n v h = never h
accepted-IsListed (gshare s) n v h =
    let (t, same, rest) = bind-IsOk (set_gshare s n v) _ h in gshare-IsListed s n v (t, same)
accepted-IsListed (tournament s) n v h =
    let (t, same, rest) = bind-IsOk (set_tournament s n v) _ h in
    tournament-IsListed s n v (t, same)
accepted-IsListed (ras s) n v h =
    let (t, same, rest) = bind-IsOk (set_ras s n v) _ h in ras-IsListed s n v (t, same)
accepted-IsListed (pipeline m) n v h =
    let (t, same, rest) = bind-IsOk (set_pipeline m n v) _ h in pipeline-IsListed m n v (t, same)
accepted-IsListed (icache design config) n v h =
    let (parsed, read, taken) = bind-IsOk (parse_parameter_value v) _ h in
    let (t, same, rest) = bind-IsOk (set_cache design config n parsed) _ taken in
    cache-IsListed design config n parsed (t, same)
accepted-IsListed (l1_l2 a b) n v h =
    let (parsed, read, taken) = bind-IsOk (parse_parameter_value v) _ h in
    let (t, same, rest) = bind-IsOk (set_levels a b n parsed) _ taken in
    levels-IsListed a b n parsed (t, same)

-- What --list shows of a component is what --param takes: a name is that of one of the component's
-- parameters exactly when set_parameter accepts some value for it.
pub parameters-Accepts :
    (c : Component) (n : Text) → IsListed n (spec_names (parameters c)) ↔ Accepts c n
parameters-Accepts c n = (
  listed-Accepts c n (parameters c) (parameters-IsAccepted c),
  λ (v, d, same). accepted-IsListed c n v (d, same),
)
