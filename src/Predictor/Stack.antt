-- ===== src/Predictor/Stack.antt =====
-- include/risc-e/component/predictor/return_address_stack.hpp. The head of the list is the back of
-- the deque, the newest entry.
use risc_e.Base.{
  ℕ, zero, suc, ◌≤◌, ◌<◌, ◌≡◌, refl, ap, arith, Bool, false, not, Option, none, some, List, [], ◌∷◌,
  length, take, length-take, ◌==◌, if◌then◌else◌,
}

pub record ReturnAddressStack : Type 0 where
  pub depth : ℕ
  pub entries : List ℕ

abbrev pub default_depth : ℕ
default_depth = 16

abbrev pub max_depth : ℕ
max_depth = 64

unfoldable pub new : ℕ → ReturnAddressStack
new depth = record { depth = depth; entries = [] }

pub enabled : ReturnAddressStack → Bool
enabled s = not (s.depth == 0)

-- `pop_front`: the oldest entry goes.
pub pop_front : List ℕ → List ℕ
pop_front [] = []
pop_front (a ∷ []) = []
pop_front (a ∷ b ∷ rest) = a ∷ pop_front (b ∷ rest)

pub push : ReturnAddressStack → ℕ → ReturnAddressStack
push s addr = if s.depth == 0 then s else record s {
  entries = addr ∷ (if length s.entries == s.depth then pop_front s.entries else s.entries);
}

pub peek : ReturnAddressStack → Option ℕ
peek s = elim s.entries [ [] ↦ none | top ∷ rest ↦ some top ]

pub pop : ReturnAddressStack → ReturnAddressStack × Option ℕ
pop s = elim s.entries [ [] ↦ (s, none) | top ∷ rest ↦ (record s { entries = rest }, some top) ]

pub reset : ReturnAddressStack → ReturnAddressStack
reset s = record s { entries = [] }

pub resize : ReturnAddressStack → ℕ → ReturnAddressStack
resize s depth = record { depth = depth; entries = [] }

-- The stack never holds more entries than its depth.
abbrev pub IsBounded : ReturnAddressStack → Type 0
IsBounded s = length s.entries ≤ s.depth

pop_front-take : (xs : List ℕ) (n : ℕ) → length xs ≡ suc n → pop_front xs ≡ take n xs
unfolding pop_front
pop_front-take [] n h = absurd (omega arith)
pop_front-take (a ∷ []) zero h = refl
pop_front-take (a ∷ []) (suc n) h = absurd (omega arith)
pop_front-take (a ∷ b ∷ rest) zero h = absurd (omega arith)
pop_front-take (a ∷ b ∷ rest) (suc n) h =
    ap (λ t. a ∷ t) (pop_front-take (b ∷ rest) n (omega arith))

take_all : (xs : List ℕ) (n : ℕ) → length xs ≤ n → take n xs ≡ xs
take_all [] zero h = refl
take_all [] (suc n) h = refl
take_all (a ∷ xs) zero h = absurd (omega arith)
take_all (a ∷ xs) (suc n) h = ap (λ t. a ∷ t) (take_all xs n (omega arith))

-- The list that a push leaves, by clauses on the depth.
push_entries :
    (depth : ℕ) (xs : List ℕ) (a : ℕ)
    → length xs ≤ suc depth
    → a ∷ (if length xs == suc depth then pop_front xs else xs) ≡ take (suc depth) (a ∷ xs)
push_entries depth xs a h =
    ap (λ t. a ∷ t) (ground (arith, pop_front-take xs depth, take_all xs depth))

-- Pushing keeps the newest `depth` entries of the unbounded stack.
entries-push :
    (s : ReturnAddressStack) (a : ℕ)
    → IsBounded s
    → (push s a).entries ≡ take s.depth (a ∷ s.entries)
unfolding push
entries-push s a h = by_depth s.depth s.entries h
  where
    by_depth :
        (depth : ℕ) (xs : List ℕ)
        → length xs ≤ depth
        → (push (record { depth = depth; entries = xs }) a).entries ≡ take depth (a ∷ xs)
    by_depth zero [] h = refl
    by_depth zero (x ∷ xs) h = absurd (omega arith)
    by_depth (suc depth) xs h = rw nonzero (push_entries depth xs a h)
      where
        nonzero : (suc depth == 0) ≡ false
        nonzero = ground arith

length-take-le : (n : ℕ) (xs : List ℕ) → length (take n xs) ≤ n
length-take-le n xs = omega (arith, length-take n xs)

pub push-IsBounded : (s : ReturnAddressStack) (a : ℕ) → IsBounded s → IsBounded (push s a)
push-IsBounded s a h =
    rw (entries-push s a h, depth-push s a) (length-take-le s.depth (a ∷ s.entries))
  where
    depth-push : (s : ReturnAddressStack) (a : ℕ) → (push s a).depth ≡ s.depth
    depth-push s a = unfold push in ground arith

pub pop-IsBounded : (s : ReturnAddressStack) → IsBounded s → IsBounded (pop s).0
unfolding pop
pop-IsBounded s h = ground arith

-- With room to spare a push is undone by a pop, which returns the address.
pub pop-push :
    (s : ReturnAddressStack) (a : ℕ) → length s.entries < s.depth → pop (push s a) ≡ (s, some a)
unfolding pop push
pop-push s a h = ground arith

pub pop-peek : (s : ReturnAddressStack) → (pop s).1 ≡ peek s
unfolding pop peek
pop-peek s = ground arith

-- With room, a push adds one entry.
pub push_room :
    (s : ReturnAddressStack) (a : ℕ)
    → length s.entries < s.depth
    → (length (push s a).entries ≡ suc (length s.entries)) × ((push s a).depth ≡ s.depth)
unfolding push
push_room s a h = (ground arith, ground arith)

pub resize-IsBounded : (s : ReturnAddressStack) (depth : ℕ) → IsBounded (resize s depth)
unfolding resize
resize-IsBounded s depth = omega arith
