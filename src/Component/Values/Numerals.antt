-- ===== src/Component/Values/Numerals.antt =====
-- Which texts parse_parameter_value of src/component/component.cpp accepts, and as which number.
use risc_e.Base.{
  ℕ, ◌+◌, ◌-◌, ◌*◌, ◌^◌, ◌<◌, ◌≡◌, ◌↔◌, inl, inr, refl, ap, sym, subst, ◌∙◌, arith, Bool, true,
  false, Option, none, some, [], ◌∷◌, ◌++◌, length, All, ◌==◌, if◌then◌else◌, Bool-cases,
}
use risc_e.Base.Int.{ℤ, pos, negsuc}
use risc_e.Base.Text.{
  Text, IsDigits, is_digit, value_from, to_string, to_string-IsDigits, to_string_nonempty,
  value_from-to_string,
}
use risc_e.Component.Values.{
  ok, is_space, skip_space, split_sign, starts_with_digit, scan_digits, stol, signed_value,
  non_negative, accept_value, parse_parameter_value,
}

pub data Sign : Type 0 where
  bare plus minus : Sign

abbrev pub sign_text : Sign → Text
sign_text bare = []
sign_text plus = 43 ∷ []
sign_text minus = 45 ∷ []

abbrev is_minus : Sign → Bool
is_minus bare = false
is_minus plus = false
is_minus minus = true

abbrev pub IsSpaces : Text → Type 0
IsSpaces = All (λ c. is_space c ≡ true)

-- A decimal numeral with its leading white space and sign. A minus sign stands only before zero.
pub record IsNumeral (t : Text) (n : ℕ) : Type 0 where
  pub spaces : Text
  pub sign : Sign
  pub first : ℕ
  pub digits : Text
  pub are_spaces : IsSpaces spaces
  pub are_digits : IsDigits (first ∷ digits)
  pub spelled : t ≡ spaces ++ (sign_text sign ++ (first ∷ digits))
  pub valued : value_from 0 (first ∷ digits) ≡ n
  pub fits : n < 2 ^ 63
  pub non_negative : sign ≡ minus → n ≡ 0

skip_space-append : (ws t : Text) → IsSpaces ws → skip_space (ws ++ t) ≡ skip_space t
unfolding skip_space
skip_space-append [] t h = refl
skip_space-append (c ∷ ws) t h = rw (h.0) (skip_space-append ws t h.1)

skip_space-sign :
    (s : Sign) (d : ℕ) (ds : Text)
    → is_digit d ≡ true
    → skip_space (sign_text s ++ (d ∷ ds)) ≡ sign_text s ++ (d ∷ ds)
unfolding skip_space
skip_space-sign bare d ds h = ground arith
skip_space-sign plus d ds h = refl
skip_space-sign minus d ds h = refl

split_sign-sign :
    (s : Sign) (d : ℕ) (ds : Text)
    → is_digit d ≡ true
    → split_sign (sign_text s ++ (d ∷ ds)) ≡ (is_minus s, d ∷ ds)
unfolding split_sign
split_sign-sign bare d ds h = ground arith
split_sign-sign plus d ds h = refl
split_sign-sign minus d ds h = refl

scan_digits-digits :
    (acc : ℕ) (ds : Text) → IsDigits ds → scan_digits acc ds ≡ (value_from acc ds, [])
unfolding scan_digits value_from
scan_digits-digits acc [] h = refl
scan_digits-digits acc (d ∷ ds) h = rw (h.0) (scan_digits-digits (acc * 10 + (d - 48)) ds h.1)

-- The parts that std::stol finds in a spelled numeral.
split-numeral :
    (ws : Text) (s : Sign) (d : ℕ) (ds : Text)
    → IsSpaces ws
    → is_digit d ≡ true
    → split_sign (skip_space (ws ++ (sign_text s ++ (d ∷ ds)))) ≡ (is_minus s, d ∷ ds)
split-numeral ws s d ds spaces digit =
    rw (skip_space-append ws (sign_text s ++ (d ∷ ds)) spaces, skip_space-sign s d ds digit)
      (split_sign-sign s d ds digit)

signed_value-sign :
    (s : Sign) (v : ℕ)
    → v < 2 ^ 63
    → (s ≡ minus → v ≡ 0)
    → signed_value (is_minus s) v ≡ some (pos v)
unfolding signed_value
signed_value-sign bare v h z = ground arith
signed_value-sign plus v h z = ground arith
signed_value-sign minus v h z = rw (z refl) refl

stol-numeral :
    (ws : Text) (s : Sign) (d : ℕ) (ds : Text)
    → IsSpaces ws
    → IsDigits (d ∷ ds)
    → value_from 0 (d ∷ ds) < 2 ^ 63
    → (s ≡ minus → value_from 0 (d ∷ ds) ≡ 0)
    → let t = ws ++ (sign_text s ++ (d ∷ ds)) in
      stol t ≡ some (pos (value_from 0 (d ∷ ds)), length t)
unfolding stol
stol-numeral ws s d ds spaces digits small zero_only =
    rw (split-numeral ws s d ds spaces digits.0, scan_digits-digits 0 (d ∷ ds) digits)
      (rw (digits.0, signed_value-sign s (value_from 0 (d ∷ ds)) small zero_only)
        (rw (split-numeral ws s d ds spaces digits.0, scan_digits-digits 0 (d ∷ ds) digits)
          (ap (λ k. some (pos (value_from 0 (d ∷ ds)), k)) (omega arith))))

decompose-space : (t : Text) → (ws : Text) × IsSpaces ws × (t ≡ ws ++ skip_space t)
unfolding skip_space
decompose-space [] = ([], tt, refl)
decompose-space (c ∷ cs) = elim (Bool-cases (is_space c)) [
  | inl space ↦
      let rest = decompose-space cs in
      (c ∷ rest.0, (space, rest.1), rw space (ap (λ v. c ∷ v) rest.2))
  | inr other ↦ ([], tt, rw other)
]

decompose-sign :
    (t : Text)
    → (s : Sign) × (t ≡ sign_text s ++ (split_sign t).1) × ((split_sign t).0 ≡ is_minus s)
unfolding split_sign
decompose-sign [] = (bare, refl, refl)
decompose-sign (c ∷ cs) = elim (Bool-cases (c == 45)) [
  | inl is_45 ↦ (minus, ground arith, ground arith)
  | inr not_45 ↦ elim (Bool-cases (c == 43)) [
    | inl is_43 ↦ (plus, ground arith, ground arith)
    | inr not_43 ↦ (bare, ground arith, ground arith)
  ]
]

scan_digits-done :
    (acc : ℕ) (ds : Text)
    → length (scan_digits acc ds).1 ≡ 0
    → IsDigits ds × ((scan_digits acc ds).0 ≡ value_from acc ds)
unfolding scan_digits value_from
scan_digits-done acc [] h = (tt, refl)
scan_digits-done acc (d ∷ ds) h = elim (Bool-cases (is_digit d)) [
  | inl digit ↦
      let rest = scan_digits-done (acc * 10 + (d - 48)) ds (
        subst
          (λ b. length (if b then scan_digits (acc * 10 + (d - 48)) ds else (acc, d ∷ ds)).1 ≡ 0)
          digit h) in
      ((digit, rest.0), rw digit (rest.1))
  | inr other ↦ absurd (ground arith)
]

signed_value-pos :
    (negative : Bool) (v n : ℕ)
    → signed_value negative v ≡ some (pos n)
    → (v ≡ n) × (n < 2 ^ 63) × (negative ≡ true → n ≡ 0)
unfolding signed_value
signed_value-pos true v n h = ground arith
signed_value-pos false v n h = ground arith

parse-stol : (t : Text) (n : ℕ) → stol t ≡ some (pos n, length t) → parse_parameter_value t ≡ ok n
unfolding parse_parameter_value
parse-stol [] n h = cc (stol-nil, h)
  where
    stol-nil : stol [] ≡ none
    stol-nil = refl
parse-stol (c ∷ cs) n h = rw h (ground arith)

accept_value-ok :
    (t : Text) (r : Option (ℤ × ℕ)) (n : ℕ) → accept_value t r ≡ ok n → r ≡ some (pos n, length t)
unfolding accept_value non_negative
accept_value-ok t none n h = cc
accept_value-ok t (some (pos m, k)) n h = ground arith
accept_value-ok t (some (negsuc m, k)) n h = ground arith

stol-parse : (t : Text) (n : ℕ) → parse_parameter_value t ≡ ok n → stol t ≡ some (pos n, length t)
unfolding parse_parameter_value
stol-parse [] n h = cc
stol-parse (c ∷ cs) n h = accept_value-ok (c ∷ cs) (stol (c ∷ cs)) n h

-- What a successful conversion says of the parts.
stol-some :
    (t : Text) (n : ℕ)
    → stol t ≡ some (pos n, length t)
    → let p = split_sign (skip_space t) in
      let r = scan_digits 0 (p.1) in
      (starts_with_digit p.1 ≡ true)
      × (signed_value p.0 r.0 ≡ some (pos n))
      × (length t - length r.1 ≡ length t)
unfolding stol
stol-some t n h = ground arith

IsNumeral-of :
    (t ws body : Text) (s : Sign) (n : ℕ)
    → IsSpaces ws
    → t ≡ ws ++ (sign_text s ++ body)
    → starts_with_digit body ≡ true
    → IsDigits body
    → value_from 0 body ≡ n
    → n < 2 ^ 63
    → (s ≡ minus → n ≡ 0)
    → IsNumeral t n
unfolding starts_with_digit
IsNumeral-of t ws [] s n spaces spelled first digits valued fits zero_only = cc
IsNumeral-of t ws (d ∷ ds) s n spaces spelled first digits valued fits zero_only = record {
  spaces = ws;
  sign = s;
  first = d;
  digits = ds;
  are_spaces = spaces;
  are_digits = digits;
  spelled = spelled;
  valued = valued;
  fits = fits;
  non_negative = zero_only;
}

length_of_parse : (t : Text) (n : ℕ) → parse_parameter_value t ≡ ok n → 0 < length t
unfolding parse_parameter_value
length_of_parse [] n h = cc
length_of_parse (c ∷ cs) n h = omega arith

is_minus-minus : (s : Sign) → s ≡ minus → is_minus s ≡ true
is_minus-minus s e = ap is_minus e

parse-IsNumeral : (t : Text) (n : ℕ) → parse_parameter_value t ≡ ok n → IsNumeral t n
parse-IsNumeral t n h =
    let (first, signed, consumed) = stol-some t n (stol-parse t n h) in
    let (ws, spaces, skipped) = decompose-space t in
    let (s, split, negative) = decompose-sign (skip_space t) in
    let (digits, valued) =
      scan_digits-done 0 (split_sign (skip_space t)).1 (omega (arith, length_of_parse t n h)) in
    let (same, fits, zero_only) = signed_value-pos _ _ n signed in
    IsNumeral-of t ws (split_sign (skip_space t)).1 s n spaces (skipped ∙ ap (λ r. ws ++ r) split)
      first digits (sym valued ∙ same) fits (λ e. zero_only (negative ∙ is_minus-minus s e))

numeral-parse : (t : Text) (n : ℕ) → IsNumeral t n → parse_parameter_value t ≡ ok n
numeral-parse t n x = parse-stol t n (
    rw (x.spelled) (
      stol-numeral x.spaces x.sign x.first x.digits x.are_spaces x.are_digits
        (rw (x.valued) (x.fits)) (λ e. x.valued ∙ x.non_negative e)
      ∙ ap (λ v. some (pos v, length (x.spaces ++ (sign_text x.sign ++ (x.first ∷ x.digits)))))
          x.valued))

-- parse_parameter_value accepts exactly the decimal numerals below 2 ^ 63, with leading white space
-- and a sign allowed and a minus sign only before zero, and gives their value: nothing but digits
-- may follow, and every other text is an error.
pub parse_parameter_value_iff :
    (t : Text) (n : ℕ) → (parse_parameter_value t ≡ ok n) ↔ IsNumeral t n
parse_parameter_value_iff t n = (parse-IsNumeral t n, numeral-parse t n)

-- Every number below 2 ^ 63 is read back from its decimal print.
parse_parameter_value-to_string : (n : ℕ) → n < 2 ^ 63 → parse_parameter_value (to_string n) ≡ ok n
unfolding starts_with_digit
parse_parameter_value-to_string n h =
    let (c, cs, spelled) = to_string_nonempty n in
    (parse_parameter_value_iff (to_string n) n).1 (
      IsNumeral-of (to_string n) [] (to_string n) bare n tt refl
        (rw spelled (subst IsDigits spelled (to_string-IsDigits n)).0) (to_string-IsDigits n)
        (value_from-to_string n) h (λ e. cc))
