-- ===== src/Cli/Json/Nesting.antt =====
-- On which documents pretty_json of src/main.cpp is defined.
use risc_e.Base.{
  ℕ, zero, suc, ◌≡◌, ◌≢◌, ◌↔◌, refl, ap, ◌∙◌, subst, arith, Bool, true, false, Option, none, some,
  List, [], ◌∷◌, length, ◌==◌, ◌||◌, if◌then◌else◌, Bool-cases, if-cases, inl, inr,
}
use risc_e.Base.Text.{Text}
use risc_e.Cli.Json.{
  Printer, start, mark_content, step_string, close_scope, step_plain, print_from, pretty_json,
}
use risc_e.Cli.Json.Content.{IsAt, step_string-IsAt}
use risc_e.Cli.Json.Blanks.{Place, outside, inside, backslash, next_place, is_blank}

-- The brackets that are open behind a byte, if it closes none but an open one.
unfoldable pub next_level : Place → ℕ → ℕ → Option ℕ
next_level outside level c =
    if c == b'{' || c == b'['
    then some (suc level)
    else if c == b'}' || c == b']'
    then elim level [ zero ↦ none | suc k ↦ some k ]
    else some level
next_level inside level c = some level
next_level backslash level c = some level

-- No bracket outside of the strings closes more than was opened before it.
unfoldable pub nests : Place → ℕ → Text → Bool
unfolding next_level next_place
nests s level [] = true
nests s level (c ∷ cs) = elim (next_level s level c) [
  | none ↦ false
  | some k ↦ nests (next_place s c) k cs
]

-- A step of the printer and one of the level: both fail, or the scopes are as many as the level.
abbrev Agrees : Option Printer → Option ℕ → Place → Type 0
Agrees none none s = Unit
Agrees none (some k) s = ⊥
Agrees (some q) none s = ⊥
Agrees (some q) (some k) s = (length q.empty_scopes ≡ k) × IsAt q s

length-mark_content : (es : List Bool) → length (mark_content es) ≡ length es
length-mark_content [] = refl
length-mark_content (e ∷ es) = refl

step_string-scopes : (p : Printer) (c : ℕ) → (step_string p c).empty_scopes ≡ p.empty_scopes
unfolding step_string
step_string-scopes p c = ground arith

close_scope-Agrees :
    (p : Printer) (c : ℕ) (scopes : List Bool)
    → IsAt p outside
    → Agrees
        (close_scope p c scopes)
        (elim (length scopes) as (λ _. Option ℕ) [ zero ↦ none | suc k ↦ some k ])
        outside
unfolding close_scope
close_scope-Agrees p c [] at = tt
close_scope-Agrees p c (e ∷ scopes) at = (length-mark_content scopes, at)

module _ (p : Printer) (c : ℕ) (at : IsAt p outside) where
  abbrev Next : Option Printer → Type 0
  Next o = Agrees o (next_level outside (length p.empty_scopes) c) (next_place outside c)

  step_plain-Agrees : Next (step_plain p c)
  unfolding step_plain next_place next_level
  step_plain-Agrees = elim (Bool-cases (c == 34)) [
    | inl quote ↦
        let n : (c == b'{' || c == b'[') ≡ false = ground arith in
        let m : (c == b'}' || c == b']') ≡ false = ground arith in
        rw (quote, n, m) (length-mark_content p.empty_scopes, (refl, at.1))
    | inr n ↦ elim (Bool-cases (c == b'{' || c == b'[')) [
      | inl opens ↦ rw (n, opens) (refl, at)
      | inr m ↦ elim (Bool-cases (c == b'}' || c == b']')) [
        | inl closes ↦ rw (n, m, closes) (close_scope-Agrees p c p.empty_scopes at)
        | inr o ↦
            rw (n, m, o)
              (let Same = λ (o : Option Printer). Agrees o (some (length p.empty_scopes)) outside in
                if-cases Same (c == b',') _ _ (λ e. (refl, at))
                  λ e.
                    if-cases Same (c == b':') _ _ (λ e. (refl, at))
                      λ e.
                        if-cases Same (is_blank c) _ _ (λ e. (refl, at))
                          (λ e. (length-mark_content p.empty_scopes, at)))
      ]
    ]
  ]

step-Agrees :
    (p : Printer) (c level : ℕ) (s : Place)
    → IsAt p s
    → length p.empty_scopes ≡ level
    → Agrees
        (if p.in_string then some (step_string p c) else step_plain p c)
        (next_level s level c)
        (next_place s c)
unfolding next_level
step-Agrees p c level s at same = taken s at (p.in_string) refl
  where
    scopes : length (step_string p c).empty_scopes ≡ level
    scopes = ap (λ (es : List Bool). length es) (step_string-scopes p c) ∙ same

    taken :
        (s : Place)
        → IsAt p s
        → (b : Bool) → p.in_string ≡ b
        → Agrees
            (if b then some (step_string p c) else step_plain p c)
            (next_level s level c)
            (next_place s c)
    taken outside at false e =
        subst (λ n. Agrees (step_plain p c) (next_level outside n c) (next_place outside c)) same
          (step_plain-Agrees p c at)
    taken outside at true e = cc (at.0, e)
    taken inside at true e = (scopes, step_string-IsAt p c inside e at)
    taken inside at false e = cc (at.0, e)
    taken backslash at true e = (scopes, step_string-IsAt p c backslash e at)
    taken backslash at false e = cc (at.0, e)

abbrev is_some : Option Printer → Bool
is_some none = false
is_some (some p) = true

Agrees-bind :
    (o : Option Printer) (n : Option ℕ) (s : Place) (f : Printer → Option Printer) (g : ℕ → Bool)
    → Agrees o n s
    → ((q : Printer) → IsAt q s → is_some (f q) ≡ g (length q.empty_scopes))
    → is_some (elim o as (λ _. Option Printer) [ none ↦ none | some q ↦ f q ])
      ≡ elim n as (λ _. Bool) [ none ↦ false | some k ↦ g k ]
Agrees-bind none none s f g a h = refl
Agrees-bind none (some k) s f g a h = absurd a
Agrees-bind (some q) none s f g a h = absurd a
Agrees-bind (some q) (some k) s f g a h = h q a.1 ∙ ap g a.0

print_from-nests :
    (p : Printer) (cs : Text) (s : Place)
    → IsAt p s
    → is_some (print_from p cs) ≡ nests s (length p.empty_scopes) cs
unfolding print_from nests
print_from-nests p [] s at = refl
print_from-nests p (c ∷ cs) s at =
    Agrees-bind (if p.in_string then some (step_string p c) else step_plain p c)
      (next_level s (length p.empty_scopes) c) (next_place s c) (λ q. print_from q cs)
      (λ k. nests (next_place s c) k cs) (step-Agrees p c (length p.empty_scopes) s at refl)
      λ q at'. print_from-nests q cs (next_place s c) at'

-- pretty_json is defined exactly on the documents in which no bracket outside of the strings closes
-- more than was opened before it; on any other it reads the last element of an empty vector.
pub pretty_json-nests : (json : Text) → (pretty_json json ≢ none) ↔ (nests outside 0 json ≡ true)
unfolding pretty_json
pretty_json-nests json = ground (arith, print_from-nests start json outside (refl, refl))
