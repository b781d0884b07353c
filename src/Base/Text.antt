-- ===== src/Base/Text.antt =====
-- Text as the list of its bytes, and the standard library's conversions between text and numbers:
-- std::to_string and the value of its digits.
use Prim.Native.Char.{code}
use Prim.Native.String.{String}
use Prim.Native.Nat.{ℕ, zero, suc, ◌+◌, ◌-◌, ◌*◌, ◌/◌, ◌%◌, ◌^◌, ◌<◌}
use mathlib.Core.Path.{◌≡◌, ap, ◌∙◌}
use mathlib.Core.Logic.{◌↔◌, inl, inr}
use mathlib.Core.Bool.{Bool, true, false, ◌&&◌}
use mathlib.Core.List.{List, [], ◌∷◌, ◌++◌}
use native.Mathlib.Omega.{arith}
use risc_e.Base.Tests.{ltb, leb, ◌==◌, if◌then◌else◌, Bool-cases}
use risc_e.Base.Lists.{All}

abbrev pub Text : Type 0
Text = List ℕ

-- The bytes of an ASCII literal.
abbrev pub text : String → Text
text String.[] = []
text (String.◌∷◌ c s) = code c ∷ text s

unfoldable pub text_eq : Text → Text → Bool
text_eq [] [] = true
text_eq [] (y ∷ ys) = false
text_eq (x ∷ xs) [] = false
text_eq (x ∷ xs) (y ∷ ys) = x == y && text_eq xs ys

pub text_eq_iff : (s t : Text) → (text_eq s t ≡ true) ↔ (s ≡ t)
unfolding text_eq
text_eq_iff [] [] = ground arith
text_eq_iff [] (y ∷ ys) = ground arith
text_eq_iff (x ∷ xs) [] = ground arith
text_eq_iff (x ∷ xs) (y ∷ ys) = ground (arith, text_eq_iff xs ys)

abbrev pub is_digit : ℕ → Bool
is_digit c = leb 48 c && leb c 57

abbrev pub IsDigits : Text → Type 0
IsDigits = All (λ c. is_digit c ≡ true)

-- One digit for each round, the last one first; the fuel is above the number.
unfoldable pub digits_from : ℕ → ℕ → Text → Text
digits_from zero n acc = acc
digits_from (suc fuel) n acc =
    let more = digits_from fuel (n / 10) ((48 + n % 10) ∷ acc) in
    if ltb n 10 then (48 + n) ∷ acc else more

unfoldable pub to_string : ℕ → Text
unfolding digits_from
to_string n = digits_from (suc n) n []

-- `std::to_string` of an `int32_t`.
unfoldable pub signed_string : ℕ → Text
signed_string w = if ltb w (2 ^ 31) then to_string w else text "-" ++ to_string (2 ^ 32 - w)

-- The value of decimal digits behind those of `acc`.
unfoldable pub value_from : ℕ → Text → ℕ
value_from acc [] = acc
value_from acc (c ∷ cs) = value_from (acc * 10 + (c - 48)) cs

pub value_from-digits_from :
    (fuel n : ℕ) (acc : Text) → n < fuel → value_from 0 (digits_from fuel n acc) ≡ value_from n acc
unfolding digits_from value_from
value_from-digits_from zero n acc h = absurd (omega arith)
value_from-digits_from (suc fuel) n acc h = elim (Bool-cases (ltb n 10)) [
  | inl small ↦ rw small (ap (λ v. value_from v acc) (omega arith))
  | inr large ↦ rw large (
      value_from-digits_from fuel (n / 10) ((48 + n % 10) ∷ acc) (ground arith)
      ∙ ap (λ v. value_from v acc) (omega arith))
]

pub digits_from-IsDigits :
    (fuel n : ℕ) (acc : Text) → IsDigits acc → IsDigits (digits_from fuel n acc)
unfolding digits_from
digits_from-IsDigits zero n acc h = h
digits_from-IsDigits (suc fuel) n acc h = elim (Bool-cases (ltb n 10)) [
  | inl small ↦ rw small (ground arith, h)
  | inr large ↦
      rw large (digits_from-IsDigits fuel (n / 10) ((48 + n % 10) ∷ acc) (ground arith, h))
]

digits_from_nonempty :
    (fuel n : ℕ) (acc : Text) → (c : ℕ) × (cs : Text) × (digits_from (suc fuel) n acc ≡ c ∷ cs)
unfolding digits_from
digits_from_nonempty zero n acc = elim (Bool-cases (ltb n 10)) [
  | inl small ↦ (48 + n, acc, rw small)
  | inr large ↦ (48 + n % 10, acc, rw large)
]
digits_from_nonempty (suc fuel) n acc = elim (Bool-cases (ltb n 10)) [
  | inl small ↦ (48 + n, acc, rw small)
  | inr large ↦
      let rest = digits_from_nonempty fuel (n / 10) ((48 + n % 10) ∷ acc) in
      (rest.0, rest.1, rw large (rest.2))
]

pub to_string_nonempty : (n : ℕ) → (c : ℕ) × (cs : Text) × (to_string n ≡ c ∷ cs)
unfolding to_string
to_string_nonempty n = digits_from_nonempty n n []

pub to_string-IsDigits : (n : ℕ) → IsDigits (to_string n)
unfolding to_string
to_string-IsDigits n = digits_from-IsDigits (suc n) n [] tt

pub value_from-to_string : (n : ℕ) → value_from 0 (to_string n) ≡ n
unfolding to_string value_from
value_from-to_string n = value_from-digits_from (suc n) n [] (omega arith)
