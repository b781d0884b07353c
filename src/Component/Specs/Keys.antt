-- ===== src/Component/Specs/Keys.antt =====
-- Chains of tests on the name of a parameter, as set_parameter of each component has one.
use risc_e.Base.{
  ◌≡◌, ◌⊎◌, inl, inr, refl, sym, subst, List, [], ◌∷◌, ◌++◌, if◌then◌else◌, Bool-cases,
}
use risc_e.Base.Text.{Text, text_eq, text_eq_iff}
use risc_e.Component.Values.{Result, ok, error, ◌>>=◌, or_else}
use risc_e.Component.Registry.Coherence.{IsListed}

abbrev pub IsOk {ℓ} : {A : Type ℓ} → Result A → Type ℓ
IsOk {A} r = (a : A) × (r ≡ ok a)

pub bind-IsOk {ℓ κ} :
    {A : Type ℓ} {B : Type κ} (r : Result A) (f : A → Result B)
    → IsOk (r >>= f)
    → (a : A) × (r ≡ ok a) × IsOk (f a)
bind-IsOk (ok a) f h = (a, refl, h)
bind-IsOk (error e) f (b, same) = cc

pub or_else-IsOk {ℓ} :
    {A : Type ℓ} (r : Result A) (next : Text → Result A)
    → IsOk (or_else r next)
    → IsOk r ⊎ ((e : Text) × IsOk (next e))
or_else-IsOk (ok a) next h = inl (a, refl)
or_else-IsOk (error e) next h = inr (e, h)

-- A test of the name: it is the key, or the other branch is taken.
pub named {ℓ} :
    {A : Type ℓ} (n key : Text) (a b : Result A)
    → IsOk (if text_eq n key then a else b)
    → (key ≡ n) ⊎ IsOk b
named n key a b h = elim (Bool-cases (text_eq n key)) [
  | inl here ↦ inl (sym ((text_eq_iff n key).0 here))
  | inr other ↦ inr (subst (λ t. IsOk (if t then a else b)) other h)
]

pub never {ℓ κ} : {A : Type ℓ} {B : Type κ} {e : Text} → IsOk {A = A} (error e) → B
never (a, same) = cc

-- The next key of a chain of tests.
pub IsListed-next {ℓ} :
    {A : Type ℓ} (n key : Text) (keys : List Text) (a b : Result A)
    → (IsOk b → IsListed n keys)
    → IsOk (if text_eq n key then a else b)
    → IsListed n (key ∷ keys)
IsListed-next n key keys a b rest h = elim (named n key a b h) [
  | inl here ↦ inl here
  | inr other ↦ inr (rest other)
]

pub one_key {ℓ} :
    {A : Type ℓ} (n k : Text) (a : Result A) (e : Text)
    → IsOk (if text_eq n k then a else error e)
    → IsListed n (k ∷ [])
one_key n k a e = IsListed-next n k [] a (error e) never

pub two_keys {ℓ} :
    {A : Type ℓ} (n k l : Text) (a b : Result A) (e : Text)
    → IsOk (if text_eq n k then a else if text_eq n l then b else error e)
    → IsListed n (k ∷ l ∷ [])
two_keys n k l a b e =
    IsListed-next n k (l ∷ []) a (if text_eq n l then b else error e) (one_key n l b e)

pub IsListed-append :
    (n : Text) (ks ls : List Text) → IsListed n ks ⊎ IsListed n ls → IsListed n (ks ++ ls)
IsListed-append n [] ls (inl h) = absurd h
IsListed-append n [] ls (inr h) = h
IsListed-append n (k ∷ ks) ls (inl (inl h)) = inl h
IsListed-append n (k ∷ ks) ls (inl (inr h)) = inr (IsListed-append n ks ls (inl h))
IsListed-append n (k ∷ ks) ls (inr h) = inr (IsListed-append n ks ls (inr h))
