-- ===== src/Cli/Listing/Known.antt =====
-- What --list of src/main.cpp lists, and that its loops never use a component that was not built.
use risc_e.Base.{
  ℕ, ◌≡◌, ◌↔◌, ◌⊎◌, inl, inr, refl, sym, subst, Option, none, some, Bool, true, List, [], ◌∷◌, ◌++◌,
}
use risc_e.Base.Text.{Text, text}
use risc_e.Component.Designs.{Component}
use risc_e.Component.Registry.{unregistered, component_types, component_names}
use risc_e.Component.Registry.Coherence.{IsListed, make_component-component_names}
use risc_e.Cli.Overrides.{build}
use risc_e.Cli.Listing.{
  ◌>>=◌, line, print_component_list, print_type_rows, type_rows, type_row, type_blocks,
  print_detail, print_type_list,
}

abbrev IsSome {ℓ} : {A : Type ℓ} → Option A → Type ℓ
IsSome {A} o = (a : A) × (o ≡ some a)

bind-IsSome {ℓ κ} :
    {A : Type ℓ} {B : Type κ} (o : Option A) (f : A → Option B)
    → IsSome o
    → ((a : A) → IsSome (f a))
    → IsSome (o >>= f)
bind-IsSome none f (a, same) h = cc
bind-IsSome (some a) f (b, same) h = h a

type_row-IsSome : (n : Text) → IsSome (build n) → IsSome (type_row n (build n))
unfolding type_row
type_row-IsSome n (c, built) = subst (λ o. IsSome (type_row n o)) (sym built) (_, refl)

type_rows-IsSome :
    (names : List Text)
    → ((n : Text) → IsListed n names → IsSome (build n))
    → IsSome (type_rows names)
unfolding type_rows
type_rows-IsSome [] h = (_, refl)
type_rows-IsSome (n ∷ names) h =
    bind-IsSome (type_row n (build n)) _ (type_row-IsSome n (h n (inl refl))) λ row.
      bind-IsSome (type_rows names) _ (type_rows-IsSome names (λ m listed. h m (inr listed)))
        λ rows. (_, refl)

-- Every name that the registry lists for a type has a component.
listed-IsSome : (t n : Text) → IsListed n (component_names unregistered t).1 → IsSome (build n)
unfolding build
listed-IsSome t n listed =
    let (c, built, named, typed) = make_component-component_names [] n t listed in (c, built)

print_type_rows-IsSome : (t : Text) → IsSome (print_type_rows t)
unfolding print_type_rows
print_type_rows-IsSome t = type_rows-IsSome (component_names unregistered t).1 (listed-IsSome t)

type_blocks-IsSome : (types : List Text) → IsSome (type_blocks types)
unfolding type_blocks
type_blocks-IsSome [] = (_, refl)
type_blocks-IsSome (t ∷ types) =
    bind-IsSome (print_type_rows t) _ (print_type_rows-IsSome t)
      λ rows. bind-IsSome (type_blocks types) _ (type_blocks-IsSome types) λ blocks. (_, refl)

-- What --list knows: nothing in particular, a component, or a type that has components.
abbrev pub IsKnown : Text → Type 0
IsKnown detail =
    (detail ≡ [])
    ⊎ (((c : Component) × (build detail ≡ some c))
        ⊎ ((n : Text) × IsListed n (component_names unregistered detail).1))

abbrev pub IsAnswered : Text → Option (Text × Bool) → Type 0
IsAnswered detail o =
    (out : Text) × (known : Bool) × (o ≡ some (out, known)) × ((known ≡ true) ↔ IsKnown detail)

print_type_list-IsAnswered :
    (x : ℕ) (xs : Text) (names : List Text)
    → build (x ∷ xs) ≡ none
    → (component_names unregistered (x ∷ xs)).1 ≡ names
    → IsAnswered (x ∷ xs) (print_type_list (x ∷ xs) names)
unfolding print_type_list
print_type_list-IsAnswered x xs [] unbuilt listed = (
  _,
  _,
  refl,
  (
    λ h. cc,
    λ h. elim h [
      | inl empty ↦ cc
      | inr (inl (c, built)) ↦ cc
      | inr (inr (n, is_listed)) ↦ absurd (subst (IsListed n) listed is_listed)
    ],
  ),
)
print_type_list-IsAnswered x xs (name ∷ names) unbuilt listed =
    let (rows, same) = print_type_rows-IsSome (x ∷ xs) in
    (
      line ((x ∷ xs) ++ text ":") ++ rows,
      true,
      rw same refl,
      (λ h. inr (inr (name, subst (IsListed name) (sym listed) (inl refl))), λ h. refl),
    )

print_detail-IsAnswered :
    (x : ℕ) (xs : Text) (made : Option Component)
    → build (x ∷ xs) ≡ made
    → IsAnswered (x ∷ xs) (print_detail (x ∷ xs) made)
unfolding print_detail
print_detail-IsAnswered x xs (some c) built = (_, _, refl, (λ h. inr (inl (c, built)), λ h. refl))
print_detail-IsAnswered x xs none unbuilt =
    print_type_list-IsAnswered x xs (component_names unregistered (x ∷ xs)).1 unbuilt refl

-- --list always answers: it never uses a component that was not built, and it returns true exactly
-- when the detail is empty, the name of a component, or a type that some component has.
pub print_component_list-IsAnswered :
    (detail : Text) → IsAnswered detail (print_component_list detail)
unfolding print_component_list
print_component_list-IsAnswered [] =
    let (blocks, same) = type_blocks-IsSome (component_types unregistered).1 in
    (blocks, true, rw same refl, (λ h. inl refl, λ h. refl))
print_component_list-IsAnswered (x ∷ xs) = print_detail-IsAnswered x xs (build (x ∷ xs)) refl
