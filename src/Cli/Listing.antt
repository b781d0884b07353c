-- ===== src/Cli/Listing.antt =====
-- --list of src/main.cpp: print_type_rows, print_component_list, and print_section_header. A function
-- gives the text that it writes to standard output. A line break is the byte 10.
pub mod Known
use risc_e.Base.{
  ℕ, ◌-◌, ◌/◌, Bool, true, false, not, Option, none, some, List, [], ◌∷◌, ◌++◌, ◌==◌, ◌&&◌, length,
  replicate, if◌then◌else◌,
}
use risc_e.Base.Text.{Text, text, to_string}
use risc_e.Component.Designs.{Component}
use risc_e.Component.Registry.{unregistered, component_types, component_names, is_empty}
use risc_e.Component.Specs.{ParamSpec, parameters}
use risc_e.Cli.Overrides.{build}

abbrev pub line : Text → Text
line t = t ++ (10 ∷ [])

infixl 5 ◌>>=◌
abbrev pub ◌>>=◌ {ℓ κ} : {A : Type ℓ} {B : Type κ} → Option A → (A → Option B) → Option B
none >>= f = none
some a >>= f = f a

unfoldable pub default_of : ParamSpec → Text
default_of p = p.name ++ (text "=" ++ p.default_value)

-- The loop over the parameters, from the second on.
unfoldable pub more_defaults : List ParamSpec → Text
unfolding default_of
more_defaults [] = []
more_defaults (p ∷ ps) = text ", " ++ (default_of p ++ more_defaults ps)

unfoldable pub defaults_of : List ParamSpec → Text
unfolding more_defaults
defaults_of [] = []
defaults_of (p ∷ ps) = text " [" ++ (default_of p ++ (more_defaults ps ++ text "]"))

-- A row needs a component: `comp->parameters()` is on what make_component gives for a listed name.
unfoldable pub type_row : Text → Option Component → Option Text
unfolding defaults_of
type_row name none = none
type_row name (some c) = some (line (text "  " ++ (name ++ defaults_of (parameters c))))

unfoldable pub type_rows : List Text → Option Text
unfolding type_row
type_rows [] = some []
type_rows (name ∷ names) = do
  row ← type_row name (build name)
  rows ← type_rows names
  some (row ++ rows)

-- `none` where a null pointer would be used.
unfoldable pub print_type_rows : Text → Option Text
unfolding type_rows
print_type_rows type = type_rows (component_names unregistered type).1

unfoldable pub type_blocks : List Text → Option Text
unfolding print_type_rows
type_blocks [] = some []
type_blocks (type ∷ types) = do
  rows ← print_type_rows type
  blocks ← type_blocks types
  some (line (type ++ text ":") ++ (rows ++ blocks))

unfoldable pub range_of : ParamSpec → Text
range_of p =
    if p.lowest == 0 && p.highest == 0
    then []
    else text "  range ["
      ++ (to_string p.lowest
          ++ ((if p.highest == 0 then text ", ..." else text ", " ++ to_string p.highest)
              ++ text "]"))

unfoldable pub parameter_rows : List ParamSpec → Text
unfolding range_of
parameter_rows [] = []
parameter_rows (p ∷ ps) =
    line (
      text "  "
      ++ (p.name
          ++ (text "  default " ++ (p.default_value ++ (range_of p ++ (text "  " ++ p.help))))))
    ++ parameter_rows ps

unfoldable pub detail_rows : List ParamSpec → Text
unfolding parameter_rows
detail_rows [] = line (text "  (no parameters)")
detail_rows (p ∷ ps) = parameter_rows (p ∷ ps)

-- The list of a type, if some component has it.
unfoldable pub print_type_list : Text → List Text → Option (Text × Bool)
unfolding print_type_rows
print_type_list detail [] = some ([], false)
print_type_list detail (name ∷ names) = do
  rows ← print_type_rows detail
  some (line (detail ++ text ":") ++ rows, true)

-- The detail view of a component, or the list of a type.
unfoldable pub print_detail : Text → Option Component → Option (Text × Bool)
unfolding detail_rows print_type_list
print_detail detail (some c) = some (line (detail ++ text ":") ++ detail_rows (parameters c), true)
print_detail detail none = print_type_list detail (component_names unregistered detail).1

-- The text, and what the function returns.
unfoldable pub print_component_list : Text → Option (Text × Bool)
unfolding type_blocks print_detail
print_component_list detail =
    if is_empty detail
    then (do blocks ← type_blocks (component_types unregistered).1; some (blocks, true))
    else print_detail detail (build detail)

abbrev header_width : ℕ
header_width = 48

-- The labels are shorter than the width.
unfoldable pub print_section_header : Text → Text
print_section_header label =
    let t = text " " ++ (label ++ text " ") in
    let left = (header_width - length t) / 2 in
    line (replicate left 45 ++ (t ++ replicate (header_width - length t - left) 45))
