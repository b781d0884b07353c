-- ===== src/Component/Values.antt =====
-- parse_parameter_value of src/component/component.cpp, over a model of std::stol.
pub mod Numerals
use risc_e.Base.{
  ℕ, ◌+◌, ◌-◌, ◌*◌, ◌^◌, Bool, true, false, not, ◌||◌, ◌&&◌, Option, none, some, List, [], ◌∷◌,
  ◌++◌, length, ltb, leb, ◌==◌, if◌then◌else◌,
}
use risc_e.Base.Int.{ℤ, pos, negsuc, sub_ℕ}
use risc_e.Base.Text.{Text, text, is_digit}

-- A value, or the text that the code leaves in `error`.
pub data Result {ℓ} (A : Type ℓ) : Type ℓ where
  ok : A → Result A
  error : Text → Result A

infixl 5 ◌>>=◌
abbrev pub ◌>>=◌ {ℓ κ} : {A : Type ℓ} {B : Type κ} → Result A → (A → Result B) → Result B
ok a >>= f = f a
error e >>= f = error e

-- "unknown parameter \"" + name + "\"".
abbrev pub unknown_parameter : Text → Text
unknown_parameter name = text "unknown parameter " ++ ((34 ∷ name) ++ (34 ∷ []))

-- A null `optional` is the exception that configure throws, with its message.
abbrev pub or_throw {ℓ} : {A : Type ℓ} → Option A → Text → Result A
or_throw none message = error message
or_throw (some a) message = ok a

-- A call that returns false is followed by the next one, which gets the error that it left.
abbrev pub or_else {ℓ} : {A : Type ℓ} → Result A → (Text → Result A) → Result A
or_else (ok a) next = ok a
or_else (error e) next = next e

-- `isspace`: the tabs, line ends and form feeds, and the space.
abbrev pub is_space : ℕ → Bool
is_space c = c == 32 || leb 9 c && leb c 13

unfoldable pub skip_space : Text → Text
skip_space [] = []
skip_space (c ∷ cs) = if is_space c then skip_space cs else c ∷ cs

-- Whether there is a minus sign, and what follows the sign.
unfoldable pub split_sign : Text → Bool × Text
split_sign [] = (false, [])
split_sign (c ∷ cs) =
    if c == 45 then (true, cs) else if c == 43 then (false, cs) else (false, c ∷ cs)

unfoldable pub starts_with_digit : Text → Bool
starts_with_digit [] = false
starts_with_digit (c ∷ cs) = is_digit c

-- The value of the leading digits behind those of `acc`, and the rest.
unfoldable pub scan_digits : ℕ → Text → ℕ × Text
scan_digits acc [] = (acc, [])
scan_digits acc (c ∷ cs) =
    if is_digit c then scan_digits (acc * 10 + (c - 48)) cs else (acc, c ∷ cs)

-- The value with its sign, if a 64-bit long can hold it.
unfoldable pub signed_value : Bool → ℕ → Option ℤ
signed_value negative value =
    if ltb (if negative then 2 ^ 63 else 2 ^ 63 - 1) value
    then none
    else some (if negative then sub_ℕ 0 value else pos value)

-- `std::stol` at base 10 with a 64-bit long: the value and the number of bytes consumed, or an
-- exception where there are no digits or the value is out of range.
unfoldable pub stol : Text → Option (ℤ × ℕ)
unfolding skip_space split_sign starts_with_digit scan_digits signed_value
stol t =
    let (negative, digits) = split_sign (skip_space t) in
    let (value, rest) = scan_digits 0 digits in
    if not (starts_with_digit digits) then none else elim (signed_value negative value) [
      | none ↦ none
      | some signed ↦ some (signed, length t - length rest)
    ]

-- "\"" + text + "\" is not an integer".
abbrev pub not_an_integer : Text → Text
not_an_integer t = (34 ∷ t) ++ (34 ∷ text " is not an integer")

-- The last test of parse_parameter_value.
unfoldable pub non_negative : ℤ → Result ℕ
non_negative (pos n) = ok n
non_negative (negsuc n) = error (text "expected a non-negative integer")

-- What follows the conversion: it must have taken the whole text.
unfoldable pub accept_value : Text → Option (ℤ × ℕ) → Result ℕ
accept_value t none = error (not_an_integer t)
accept_value t (some (value, consumed)) =
    if not (consumed == length t) then error (not_an_integer t) else non_negative value

unfoldable pub parse_parameter_value : Text → Result ℕ
unfolding stol accept_value non_negative
parse_parameter_value [] = error (text "expected an integer value")
parse_parameter_value (c ∷ cs) = accept_value (c ∷ cs) (stol (c ∷ cs))
