-- ===== src/Cli/Json.antt =====
-- pretty_json of src/main.cpp.
-- `out` and the scopes are kept newest first, so that push_back is a cons. `none` is the call of
-- back() on an empty vector, which a bracket that closes nothing would make.
pub mod Blanks
pub mod Content
pub mod Nesting
use mathlib.Core.List.{reverse}
use risc_e.Base.{
  ℕ, ◌+◌, ◌-◌, ◌*◌, Bool, true, false, Option, none, some, List, [], ◌∷◌, ◌++◌, replicate, ◌==◌,
  ◌||◌, if◌then◌else◌,
}
use risc_e.Base.Text.{Text}

pub record Printer : Type 0 where
  pub out : Text
  pub empty_scopes : List Bool
  pub in_string : Bool
  pub escape : Bool
  pub depth : ℕ

abbrev pub start : Printer
start = record { out = []; empty_scopes = []; in_string = false; escape = false; depth = 0 }

-- `indent`: a line end and two spaces for each level.
abbrev pub indent : ℕ → Text → Text
indent depth out = replicate (depth * 2) 32 ++ (10 ∷ out)

-- `mark_content`
abbrev pub mark_content : List Bool → List Bool
mark_content [] = []
mark_content (e ∷ es) = false ∷ es

-- The inner loop of a closing bracket.
unfoldable pub trim : Text → Text
trim [] = []
trim (c ∷ cs) = if c == 32 || c == 10 then trim cs else c ∷ cs

-- A byte within a string.
unfoldable pub step_string : Printer → ℕ → Printer
step_string p c =
    if p.escape
    then record p { out = c ∷ p.out; escape = false }
    else if c == 92
    then record p { out = c ∷ p.out; escape = true }
    else if c == 34
    then record p { out = c ∷ p.out; in_string = false }
    else record p { out = c ∷ p.out }

-- A closing bracket, with the scopes as an argument.
unfoldable pub close_scope : Printer → ℕ → List Bool → Option Printer
unfolding trim
close_scope p c [] = none
close_scope p c (empty ∷ scopes) =
    let depth = p.depth - 1 in
    some (record p {
      out = c ∷ (if empty then trim p.out else indent depth p.out);
      empty_scopes = mark_content scopes;
      depth = depth;
    })

-- The switch.
unfoldable pub step_plain : Printer → ℕ → Option Printer
unfolding close_scope
step_plain p c =
    if c == 34
    then some
        (record p { out = c ∷ p.out; in_string = true; empty_scopes = mark_content p.empty_scopes })
    else if c == b'{' || c == b'['
    then some (record p {
      out = indent (p.depth + 1) (c ∷ p.out);
      depth = p.depth + 1;
      empty_scopes = true ∷ p.empty_scopes;
    })
    else if c == b'}' || c == b']'
    then close_scope p c p.empty_scopes
    else if c == b','
    then some (record p { out = indent p.depth (c ∷ p.out) })
    else if c == b':'
    then some (record p { out = 32 ∷ c ∷ p.out })
    else if c == 32 || (c == 10 || (c == 9 || c == 13))
    then some p
    else some (record p { out = c ∷ p.out; empty_scopes = mark_content p.empty_scopes })

unfoldable pub print_from : Printer → Text → Option Printer
unfolding step_string step_plain
print_from p [] = some p
print_from p (c ∷ cs) = elim (if p.in_string then some (step_string p c) else step_plain p c) [
  | none ↦ none
  | some q ↦ print_from q cs
]

unfoldable pub pretty_json : Text → Option Text
unfolding print_from
pretty_json json = elim (print_from start json) [ none ↦ none | some p ↦ some (reverse p.out) ]
