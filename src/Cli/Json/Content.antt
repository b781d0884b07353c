-- ===== src/Cli/Json/Content.antt =====
-- pretty_json of src/main.cpp changes nothing but the blanks between the tokens.
use mathlib.Core.List.{reverse, reverse_aux, reverse-reverse}
use risc_e.Base.{
  ℕ, ◌+◌, ◌-◌, ◌≡◌, refl, sym, ap, ◌∙◌, subst, arith, Bool, true, false, Option, none, some, List,
  [], ◌∷◌, ◌==◌, ◌||◌, if◌then◌else◌, if-cases, Bool-cases, inl, inr,
}
use risc_e.Base.Text.{Text}
use risc_e.Cli.Json.{
  Printer, start, indent, trim, step_string, close_scope, step_plain, print_from, pretty_json,
}
use risc_e.Cli.Json.Blanks.{
  Place, outside, inside, backslash, is_blank, next_place, place, squeeze, minify, squeeze-blanks,
  squeeze-indent, squeeze-trim,
}

-- What is printed is what was read, up to blanks between tokens, and both end at the place `s`.
abbrev IsFaithful : Text → Text → Place → Type 0
IsFaithful out older s = (squeeze out ≡ squeeze older) × (place out ≡ s) × (place older ≡ s)

-- The flags of a printer at a place.
abbrev pub IsAt : Printer → Place → Type 0
IsAt p outside = (p.in_string ≡ false) × (p.escape ≡ false)
IsAt p inside = (p.in_string ≡ true) × (p.escape ≡ false)
IsAt p backslash = (p.in_string ≡ true) × (p.escape ≡ true)

push_both :
    (c : ℕ) (out older : Text) (s : Place)
    → IsFaithful out older s
    → IsFaithful (c ∷ out) (c ∷ older) (next_place s c)
unfolding squeeze place
push_both c out older s (same, at, at') = rw (at, at') (rw same (refl, refl, refl))

skip_blank :
    (c : ℕ) (out older : Text)
    → is_blank c ≡ true
    → IsFaithful out older outside
    → IsFaithful out (c ∷ older) outside
unfolding squeeze place next_place
skip_blank c out older b (same, at, at') = (same ∙ rw at' (rw b refl), at, rw at' (ground arith))

indent_out :
    (depth : ℕ) (out older : Text)
    → IsFaithful out older outside
    → IsFaithful (indent depth out) older outside
indent_out depth out older (same, at, at') =
    let (same', at'') = squeeze-indent depth out at in (same' ∙ same, at'', at')

trim_out : (out older : Text) → IsFaithful out older outside → IsFaithful (trim out) older outside
trim_out out older (same, at, at') =
    let (same', at'') = squeeze-trim out at in (same' ∙ same, at'', at')

-- After one byte: the text is faithful at the next place, where the flags stand.
abbrev IsNext : Printer → ℕ → Text → Place → Type 0
IsNext q c older s = IsFaithful q.out (c ∷ older) (next_place s c) × IsAt q (next_place s c)

step_string-out : (p : Printer) (c : ℕ) → (step_string p c).out ≡ c ∷ p.out
unfolding step_string
step_string-out p c = ground arith

pub step_string-IsAt :
    (p : Printer) (c : ℕ) (s : Place)
    → p.in_string ≡ true
    → IsAt p s
    → IsAt (step_string p c) (next_place s c)
unfolding step_string next_place
step_string-IsAt p c outside i at = absurd (ground arith)
step_string-IsAt p c inside i at = elim (Bool-cases (c == 92)) [
  | inl b ↦ rw (b, at.1) (i, refl)
  | inr n ↦ elim (Bool-cases (c == 34)) [
    | inl q ↦ rw (n, q, at.1) (refl, refl)
    | inr o ↦ rw (n, o, at.1) (i, refl)
  ]
]
step_string-IsAt p c backslash i at = rw (at.1) (i, refl)

step_string-IsNext :
    (p : Printer) (c : ℕ) (older : Text) (s : Place)
    → p.in_string ≡ true
    → IsAt p s
    → IsFaithful p.out older s
    → IsNext (step_string p c) c older s
step_string-IsNext p c older s i at f =
    (rw (step_string-out p c) (push_both c p.out older s f), step_string-IsAt p c s i at)

-- What holds of the printer that a step gives, if it gives one.
abbrev Safely : Option Printer → (Printer → Type 0) → Type 0
Safely none P = Unit
Safely (some q) P = P q

module _ (p : Printer) (c : ℕ) (older : Text) where
  abbrev IsDone : Printer → Type 0
  IsDone q = IsFaithful q.out (c ∷ older) outside × IsAt q outside

  pushed :
      (out : Text)
      → (c == 34) ≡ false
      → IsFaithful out older outside
      → IsFaithful (c ∷ out) (c ∷ older) outside
  unfolding next_place
  pushed out n f =
      subst (λ b. IsFaithful (c ∷ out) (c ∷ older) (if b then inside else outside)) n
        (push_both c out older outside f)

  module _ (n : (c == 34) ≡ false) (at : IsAt p outside) (f : IsFaithful p.out older outside) where
    close_scope-IsDone : (scopes : List Bool) → Safely (close_scope p c scopes) IsDone
    unfolding close_scope
    close_scope-IsDone [] = tt
    close_scope-IsDone (true ∷ scopes) = (pushed (trim p.out) n (trim_out p.out older f), at)
    close_scope-IsDone (false ∷ scopes) =
        (pushed (indent (p.depth - 1) p.out) n (indent_out (p.depth - 1) p.out older f), at)

    step_plain-IsDone : Safely (step_plain p c) IsDone
    unfolding step_plain next_place squeeze place
    step_plain-IsDone = rw n (
        if-cases (λ o. Safely o IsDone) (c == b'{' || c == b'[') _ _
          (λ e. (indent_out (p.depth + 1) (c ∷ p.out) (c ∷ older) (pushed p.out n f), at))
          λ e.
            if-cases (λ o. Safely o IsDone) (c == b'}' || c == b']') _ _
              (λ e. close_scope-IsDone p.empty_scopes)
              λ e.
                if-cases (λ o. Safely o IsDone) (c == b',') _ _
                  (λ e. (indent_out p.depth (c ∷ p.out) (c ∷ older) (pushed p.out n f), at))
                  λ e.
                    if-cases (λ o. Safely o IsDone) (c == b':') _ _
                      (λ e. (spaced (pushed p.out n f), at))
                      λ e.
                        if-cases (λ o. Safely o IsDone) (is_blank c) _ _
                          (λ e. (skip_blank c p.out older e f, at)) (λ e. (pushed p.out n f, at)))
      where
        spaced :
            IsFaithful (c ∷ p.out) (c ∷ older) outside
            → IsFaithful (32 ∷ c ∷ p.out) (c ∷ older) outside
        spaced g =
            let (same, place) = squeeze-blanks (32 ∷ []) (c ∷ p.out) (refl, tt) g.1 in
            (same ∙ g.0, place, g.2)

  step_plain-quote :
      (c == 34) ≡ true
      → IsAt p outside
      → IsFaithful p.out older outside
      → Safely (step_plain p c) (λ q. IsFaithful q.out (c ∷ older) inside × IsAt q inside)
  unfolding step_plain next_place
  step_plain-quote quote at f = rw quote (
    subst (λ b. IsFaithful (c ∷ p.out) (c ∷ older) (if b then inside else outside)) quote
        (push_both c p.out older outside f),
    (refl, at.1),
  )

  step_plain-IsNext :
      IsAt p outside
      → IsFaithful p.out older outside
      → Safely (step_plain p c) (λ q. IsNext q c older outside)
  unfolding next_place
  step_plain-IsNext at f = elim (Bool-cases (c == 34)) [
    | inl quote ↦ rw quote (step_plain-quote quote at f)
    | inr n ↦ rw n (step_plain-IsDone n at f)
  ]

step-IsNext :
    (p : Printer) (c : ℕ) (older : Text) (s : Place)
    → IsAt p s
    → IsFaithful p.out older s
    → Safely
        (if p.in_string then some (step_string p c) else step_plain p c)
        (λ q. IsNext q c older s)
step-IsNext p c older s at f = taken s at f (p.in_string) refl
  where
    taken :
        (s : Place)
        → IsAt p s
        → IsFaithful p.out older s
        → (b : Bool) → p.in_string ≡ b
        → Safely (if b then some (step_string p c) else step_plain p c) (λ q. IsNext q c older s)
    taken outside at f false e = step_plain-IsNext p c older at f
    taken outside at f true e = cc (at.0, e)
    taken inside at f true e = step_string-IsNext p c older inside e at f
    taken inside at f false e = cc (at.0, e)
    taken backslash at f true e = step_string-IsNext p c older backslash e at f
    taken backslash at f false e = cc (at.0, e)

Safely-bind :
    (o : Option Printer) (P Q : Printer → Type 0) (k : Printer → Option Printer)
    → Safely o P
    → ((q : Printer) → P q → Safely (k q) Q)
    → Safely (elim o as (λ _. Option Printer) [ none ↦ none | some q ↦ k q ]) Q
Safely-bind none P Q k h step = tt
Safely-bind (some q) P Q k h step = step q h

-- Reading on from an older text that stands newest first.
print_from-IsFaithful :
    (p : Printer) (cs older : Text) (s : Place)
    → IsAt p s
    → IsFaithful p.out older s
    → Safely (print_from p cs) (λ q. squeeze q.out ≡ squeeze (reverse_aux cs older))
unfolding print_from
print_from-IsFaithful p [] older s at f = f.0
print_from-IsFaithful p (c ∷ cs) older s at f =
    Safely-bind (if p.in_string then some (step_string p c) else step_plain p c)
      (λ q. IsNext q c older s) (λ q. squeeze q.out ≡ squeeze (reverse_aux cs (c ∷ older)))
      (λ q. print_from q cs) (step-IsNext p c older s at f)
      λ q next. print_from-IsFaithful q cs (c ∷ older) (next_place s c) next.1 next.0

-- Pretty-printing changes only the blanks outside of strings: the printed document and the given one
-- are the same without them. This holds of every text that is printed, valid JSON or not.
pub minify-pretty_json :
    (json : Text) {out : Text} → pretty_json json ≡ some out → minify out ≡ minify json
unfolding pretty_json minify
minify-pretty_json json {out} h =
    finish (print_from start json)
      (print_from-IsFaithful start json [] outside (refl, refl) (refl, refl, refl)) h
  where
    finish :
        (o : Option Printer)
        → Safely o (λ q. squeeze q.out ≡ squeeze (reverse_aux json []))
        → elim o as (λ _. Option Text) [ none ↦ none | some p ↦ some (reverse p.out) ] ≡ some out
        → reverse (squeeze (reverse out)) ≡ reverse (squeeze (reverse json))
    finish none s e = cc
    finish (some q) s e =
        let printed : reverse q.out ≡ out = cc e in
        ap (λ t. reverse (squeeze t)) (ap reverse (sym printed) ∙ reverse-reverse q.out)
        ∙ ap reverse s
