-- ===== src/Component/Escape/RoundTrip.antt =====
-- json_escape of src/component/component.cpp against a reader of JSON strings (RFC 8259, section 7).
use risc_e.Base.{
  ℕ, zero, suc, ◌+◌, ◌-◌, ◌*◌, ◌/◌, ◌%◌, ◌<◌, ◌≤◌, ◌≡◌, refl, ap, ◌∙◌, arith, Bool, true, false,
  Option, none, some, [], ◌∷◌, ◌++◌, ltb, leb, ◌==◌, ◌&&◌, ◌||◌, if◌then◌else◌, Bool-cases, inl,
  inr, ==_iff, ltb→lt,
}
use risc_e.Base.Text.{Text, text_eq, text_eq_iff}
use risc_e.Base.Hex.{to_hex, pad, hex_digit}
use risc_e.Component.Escape.{escape_char, json_escape}

-- Where a reader of a JSON string stands: between characters, behind a backslash, or within the four
-- digits of a code point.
pub data Reading : Type 0 where
  plain escaped : Reading
  digits : ℕ → ℕ → Reading

hex_value? : ℕ → Option ℕ
hex_value? c =
    if leb 48 c && leb c 57
    then some (c - 48)
    else if leb 97 c && leb c 102
    then some (c - 87)
    else if leb 65 c && leb c 70
    then some (c - 55)
    else none

-- The character that a simple escape stands for.
simple_escape : ℕ → Option ℕ
simple_escape c =
    if c == 34 || c == 92 || c == b'/'
    then some c
    else if c == b'b'
    then some 8
    else if c == b'f'
    then some 12
    else if c == b'n'
    then some 10
    else if c == b'r'
    then some 13
    else if c == b't'
    then some 9
    else none

-- The next place and the byte that is read, if any; a code point of one byte alone is read.
read_char : Reading → ℕ → Option (Reading × Option ℕ)
unfolding simple_escape hex_value?
read_char plain c =
    if c == 92
    then some (escaped, none)
    else if c == 34 || ltb c 0x20
    then none
    else some (plain, some c)
read_char escaped c =
    if c == b'u'
    then some (digits 3 0, none)
    else elim (simple_escape c) [ none ↦ none | some d ↦ some (plain, some d) ]
read_char (digits zero v) c = elim (hex_value? c) [
  | none ↦ none
  | some d ↦ if ltb (v * 16 + d) 0x80 then some (plain, some (v * 16 + d)) else none
]
read_char (digits (suc k) v) c = elim (hex_value? c) [
  | none ↦ none
  | some d ↦ some (digits k (v * 16 + d), none)
]

abbrev emit : Option ℕ → Option Text → Option Text
emit out none = none
emit none (some t) = some t
emit (some c) (some t) = some (c ∷ t)

-- The text that the body of a JSON string stands for.
pub read_string : Reading → Text → Option Text
unfolding read_char
read_string plain [] = some []
read_string escaped [] = none
read_string (digits k v) [] = none
read_string r (c ∷ cs) = elim (read_char r c) [
  | none ↦ none
  | some next ↦ emit next.1 (read_string next.0 cs)
]

-- The test passes on `count` numbers, from `low` on.
passes : (ℕ → Bool) → ℕ → ℕ → Bool
passes test low zero = true
passes test low (suc count) = test low && passes test (low + 1) count

passes_at :
    (test : ℕ → Bool) (c low count : ℕ)
    → low ≤ c
    → c < low + count
    → passes test low count ≡ true
    → test c ≡ true
unfolding passes
passes_at test c low zero above below h = absurd (omega arith)
passes_at test c low (suc count) above below h = ground (arith, passes_at test c (low + 1) count)

-- The four digits of a control character.
control_table :
    passes
      (λ c. text_eq (pad 4 (to_hex c)) (48 ∷ 48 ∷ hex_digit (c / 16) ∷ hex_digit (c % 16) ∷ []))
      0
      32
    ≡ true
unfolding passes text_eq pad to_hex hex_digit
control_table = refl

pad-control :
    (c : ℕ) → c < 32 → pad 4 (to_hex c) ≡ 48 ∷ 48 ∷ hex_digit (c / 16) ∷ hex_digit (c % 16) ∷ []
pad-control c h =
    (text_eq_iff (pad 4 (to_hex c)) (48 ∷ 48 ∷ hex_digit (c / 16) ∷ hex_digit (c % 16) ∷ [])).0
      (passes_at _ c 0 32 (omega arith) h control_table)

hex_value?-hex_digit : (d : ℕ) → d < 16 → hex_value? (hex_digit d) ≡ some d
unfolding hex_value? hex_digit
hex_value?-hex_digit d h = ground arith

emit-none : (o : Option Text) → emit none o ≡ o
emit-none none = refl
emit-none (some t) = refl

read_string-control :
    (c : ℕ) (rest : Text)
    → c < 32
    → read_string plain (92 ∷ b'u' ∷ pad 4 (to_hex c) ++ rest)
      ≡ emit (some c) (read_string plain rest)
unfolding read_string
read_string-control c rest h =
    rw (pad-control c h, hex_value?-hex_digit (c / 16) (omega arith))
      (rw (hex_value?-hex_digit (c % 16) (omega arith))
        (ground (arith, emit-none (read_string plain rest))))

read_char-plain :
    (c : ℕ)
    → (c == 34) ≡ false
    → (c == 92) ≡ false
    → ltb c 0x20 ≡ false
    → read_char plain c ≡ some (plain, some c)
unfolding read_char
read_char-plain c a b d = ground arith

read_string-escape_char :
    (c : ℕ) (rest : Text)
    → read_string plain (escape_char c ++ rest) ≡ emit (some c) (read_string plain rest)
unfolding escape_char read_string
read_string-escape_char c rest = elim (Bool-cases (c == 34)) [
  | inl e ↦ rw ((==_iff c 34).0 e) (quoted 34 34 refl)
  | inr n34 ↦ elim (Bool-cases (c == 92)) [
    | inl e ↦ rw ((==_iff c 92).0 e) (quoted 92 92 refl)
    | inr n92 ↦ elim (Bool-cases (c == 10)) [
      | inl e ↦ rw ((==_iff c 10).0 e) (quoted b'n' 10 refl)
      | inr n10 ↦ elim (Bool-cases (c == 9)) [
        | inl e ↦ rw ((==_iff c 9).0 e) (quoted b't' 9 refl)
        | inr n9 ↦ elim (Bool-cases (c == 13)) [
          | inl e ↦ rw ((==_iff c 13).0 e) (quoted b'r' 13 refl)
          | inr n13 ↦ elim (Bool-cases (ltb c 0x20)) [
            | inl control ↦
                rw (n34, n92, n10, n9, n13, control)
                  (read_string-control c rest (ltb→lt c 32 control))
            | inr other ↦ rw (n34, n92, n10, n9, n13, other) (unquoted n34 n92 other)
          ]
        ]
      ]
    ]
  ]
]
  where
    quoted :
        (d e : ℕ)
        → read_char escaped d ≡ some (plain, some e)
        → read_string plain (92 ∷ d ∷ rest) ≡ emit (some e) (read_string plain rest)
    quoted d e h = rw h (emit-none (emit (some e) (read_string plain rest)))

    unquoted :
        c == 34 ≡ false
        → c == 92 ≡ false
        → ltb c 0x20 ≡ false
        → read_string plain (c ∷ rest) ≡ emit (some c) (read_string plain rest)
    unquoted a b d = rw (read_char-plain c a b d, read_string)

-- Every text is read back from its escaped form as the body of a JSON string, which therefore holds
-- no raw quote and no control character.
pub read_string-json_escape : (t : Text) → read_string plain (json_escape t) ≡ some t
unfolding json_escape read_string
read_string-json_escape [] = refl
read_string-json_escape (c ∷ cs) =
    read_string-escape_char c (json_escape cs) ∙ ap (emit (some c)) (read_string-json_escape cs)
