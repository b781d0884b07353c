-- ===== src/Component/Escape.antt =====
-- json_escape of src/component/component.cpp.
pub mod RoundTrip
use risc_e.Base.{
  ℕ, zero, suc, ◌+◌, ◌-◌, ◌*◌, ◌/◌, ◌%◌, ◌<◌, ◌≤◌, ◌≡◌, refl, ap, ◌∙◌, arith, Bool, true, false,
  Option, none, some, [], ◌∷◌, ◌++◌, ltb, leb, ◌==◌, ◌&&◌, ◌||◌, if◌then◌else◌, Bool-cases, inl,
  inr, ==_iff, ltb→lt,
}
use risc_e.Base.Text.{Text, text_eq, text_eq_iff}
use risc_e.Base.Hex.{to_hex, pad, hex_digit}

-- One round of the loop: what is appended for `c`.
unfoldable pub escape_char : ℕ → Text
escape_char c =
    if c == 34
    then 92 ∷ 34 ∷ []
    else if c == 92
    then 92 ∷ 92 ∷ []
    else if c == 10
    then 92 ∷ b'n' ∷ []
    else if c == 9
    then 92 ∷ b't' ∷ []
    else if c == 13
    then 92 ∷ b'r' ∷ []
    else if ltb c 0x20
    then 92 ∷ b'u' ∷ pad 4 (to_hex c)
    else c ∷ []

unfoldable pub json_escape : Text → Text
unfolding escape_char
json_escape [] = []
json_escape (c ∷ cs) = escape_char c ++ json_escape cs
