-- ===== src/Cli/Json/Blanks.antt =====
-- The blanks of a JSON document outside of its strings, for pretty_json of src/main.cpp.
use mathlib.Core.List.{reverse}
use risc_e.Base.{
  ℕ, zero, suc, ◌*◌, ◌≡◌, refl, ◌∙◌, arith, Bool, true, false, [], ◌∷◌, ◌++◌, replicate, All, ◌==◌,
  ◌||◌, ◌&&◌, if◌then◌else◌, Bool-cases, inl, inr,
}
use risc_e.Base.Text.{Text}
use risc_e.Cli.Json.{indent, trim}

abbrev pub is_blank : ℕ → Bool
is_blank c = c == 32 || (c == 10 || (c == 9 || c == 13))

-- Between the tokens, within a string, and behind a backslash there.
pub data Place : Type 0 where
  outside inside backslash : Place

unfoldable pub next_place : Place → ℕ → Place
next_place outside c = if c == 34 then inside else outside
next_place inside c = if c == 92 then backslash else if c == 34 then outside else inside
next_place backslash c = inside

abbrev pub is_outside : Place → Bool
is_outside outside = true
is_outside inside = false
is_outside backslash = false

-- The place behind a text that is given newest first.
unfoldable pub place : Text → Place
unfolding next_place
place [] = outside
place (c ∷ older) = next_place (place older) c

-- A text, newest first, without the blanks outside its strings.
unfoldable pub squeeze : Text → Text
unfolding place
squeeze [] = []
squeeze (c ∷ older) =
    if is_outside (place older) && is_blank c then squeeze older else c ∷ squeeze older

-- A JSON document without the blanks outside its strings.
unfoldable pub minify : Text → Text
unfolding squeeze
minify t = reverse (squeeze (reverse t))

-- Blanks behind a place outside of the strings.
pub squeeze-blanks :
    (bs out : Text)
    → All (λ c. is_blank c ≡ true) bs
    → place out ≡ outside
    → (squeeze (bs ++ out) ≡ squeeze out) × (place (bs ++ out) ≡ outside)
unfolding squeeze place next_place
squeeze-blanks [] out h e = (refl, e)
squeeze-blanks (b ∷ bs) out h e =
    let (same, at) = squeeze-blanks bs out h.1 e in (rw at (rw (h.0) same), rw at (ground arith))

pub blanks : (n : ℕ) → All (λ c. is_blank c ≡ true) (replicate n 32)
blanks zero = tt
blanks (suc n) = (refl, blanks n)

pub squeeze-indent :
    (depth : ℕ) (out : Text)
    → place out ≡ outside
    → (squeeze (indent depth out) ≡ squeeze out) × (place (indent depth out) ≡ outside)
unfolding squeeze place next_place
squeeze-indent depth out e =
    let (same, at) =
      squeeze-blanks (replicate (depth * 2) 32) (10 ∷ out) (blanks (depth * 2)) (rw e refl) in
    (same ∙ rw e refl, at)

pub next_place-blank :
    (s : Place) (c : ℕ) → (c == 32 || c == 10) ≡ true → next_place s c ≡ outside → s ≡ outside
unfolding next_place
next_place-blank outside c b h = refl
next_place-blank inside c b h = ground arith
next_place-blank backslash c b h = cc

pub place-blank :
    (c : ℕ) (older : Text)
    → (c == 32 || c == 10) ≡ true
    → place (c ∷ older) ≡ outside
    → place older ≡ outside
unfolding place
place-blank c older b h = next_place-blank (place older) c b h

pub squeeze-trim :
    (out : Text)
    → place out ≡ outside
    → (squeeze (trim out) ≡ squeeze out) × (place (trim out) ≡ outside)
unfolding squeeze trim
squeeze-trim [] e = (refl, e)
squeeze-trim (c ∷ cs) e = elim (Bool-cases (c == 32 || c == 10)) [
  | inl b ↦
      let at = place-blank c cs b e in
      let (same, place_same) = squeeze-trim cs at in rw b (same ∙ rw at (ground arith), place_same)
  | inr n ↦ rw n (refl, e)
]
