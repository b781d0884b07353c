-- ===== src/Component/Tests.antt =====
-- Witnesses and runs for the components' interface.
use risc_e.Base.{◌≡◌, ◌↔◌, refl, inl, inr, some, [], ◌∷◌}
use risc_e.Base.Text.{Text, text, text_eq}
use risc_e.Component.Values.{ok, error, parse_parameter_value, unknown_parameter, not_an_integer}
use risc_e.Component.Values.Numerals.{IsNumeral, parse_parameter_value_iff}
use risc_e.Component.Escape.{json_escape}
use risc_e.Component.Escape.RoundTrip.{Reading, read_string, read_string-json_escape}
use risc_e.Component.Designs.{Component, pipeline, icache, set_associative, cache_config}
use risc_e.Component.Configure.{set_parameter}
use risc_e.Component.Registry.{component_names, component_types, make_component}
use risc_e.Component.Registry.Coherence.{
  list_types, IsListed, IsBuilt, after, make_component-component_names,
}
use risc_e.Component.Specs.{parameters, spec_names}
use risc_e.Component.Specs.Catalogue.{Accepts, parameters-Accepts}

parsed_number : parse_parameter_value (text " +42") ≡ ok 42
unfolding parse_parameter_value
parsed_number = refl

not_a_number : parse_parameter_value (text "12x") ≡ error (not_an_integer (text "12x"))
unfolding parse_parameter_value
not_a_number = refl

parse_parameter_value_iff_example :
    (parse_parameter_value (text "64") ≡ ok 64) ↔ IsNumeral (text "64") 64
parse_parameter_value_iff_example = parse_parameter_value_iff (text "64") 64

-- A quote, a line break and a control character.
abbrev mixed : Text
mixed = 34 ∷ 10 ∷ 1 ∷ text "ok"

read_string-json_escape_example : read_string Reading.plain (json_escape mixed) ≡ some mixed
read_string-json_escape_example = read_string-json_escape mixed

second-IsListed :
    IsListed (text "icache-setassoc") (component_names (after (list_types ∷ [])) (text "icache")).1
unfolding component_names component_types text_eq
second-IsListed = inr (inl refl)

make_component-component_names_example :
    IsBuilt
      (make_component (after (list_types ∷ [])) (text "icache-setassoc")).1
      (text "icache-setassoc")
      (text "icache")
make_component-component_names_example =
    make_component-component_names (list_types ∷ []) (text "icache-setassoc") (text "icache")
      second-IsListed

abbrev five_stages : Component
five_stages = pipeline (record { stages = 5; stall_penalty = 0 })

-- The message names an unknown parameter, not the bad value.
zero_lines :
    set_parameter
      (icache set_associative (cache_config set_associative))
      (text "line-size")
      (text "0")
    ≡ error (unknown_parameter (text "line-size"))
unfolding set_parameter parse_parameter_value text_eq
zero_lines = refl

parameters-Accepts_example :
    IsListed (text "stages") (spec_names (parameters five_stages))
    ↔ Accepts five_stages (text "stages")
parameters-Accepts_example = parameters-Accepts five_stages (text "stages")
