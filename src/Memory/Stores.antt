-- ===== src/Memory/Stores.antt =====
-- store16 and store32: the byte map after a store, and the round trip with the loads.
use risc_e.Base.{
  ℕ, ◌+◌, ◌-◌, ◌*◌, ◌/◌, ◌%◌, ◌^◌, ◌<◌, ◌≡◌, ◌≢◌, refl, arith, Option, none, some, ◌&&◌, List, [],
  ◌==◌, if◌then◌else◌, update, ◌∙◌, ap, Option-cases, Bool-cases, inl, inr, ==_iff, ltb, leb,
  fun_ext, Bool, true, false,
}
use risc_e.Base.Word.{add32}
use risc_e.Base.Bits.{bit_and_mask}
use risc_e.Cpu.Trap.{TrapCause, Trap}
use risc_e.Memory.{PhysicalMemory, Page, raise_fault, write_byte, load32, store16, store32}
use risc_e.Memory.Pages.{byte_at}
use risc_e.Memory.Words.{load32_lem}
use risc_e.Memory.Access.{
  IsBytes, word_at, same_page, checks2_pass, checks4_pass, misaligned2, misaligned4, unmapped2,
  unmapped4,
}

-- The calls of the trap sink that a store of `n` bytes makes.
abbrev pub expected_traps : PhysicalMemory → ℕ → ℕ → List Trap
expected_traps m a n =
    if a % n == 0
    then elim (byte_at m a) [ none ↦ raise_fault m TrapCause.store_fault a | some v ↦ [] ]
    else raise_fault m TrapCause.store_misaligned a

update-update {ℓ} :
    {A : Type ℓ} (f : ℕ → A) (k : ℕ) (v w : A) → update (update f k v) k w ≡ update f k w
update-update f k v w = fun_ext λ j. ground arith

-- The memory with one page replaced.
abbrev put_page : PhysicalMemory → ℕ → Page → PhysicalMemory
put_page m index page = record m { pages = update m.pages index (some page) }

put_page-put_page :
    (m : PhysicalMemory) (index : ℕ) (p q : Page)
    → put_page (put_page m index p) index q ≡ put_page m index q
put_page-put_page m index p q =
    ap (λ f. record m { pages = f }) (update-update m.pages index (some p) (some q))

module _ (a : ℕ) (bound : a < 2 ^ 32) where
  write_byte-mapped :
      (m : PhysicalMemory) (k v : ℕ) (page : Page)
      → m.pages (a / 2 ^ 12) ≡ some page
      → a % 2 ^ 12 + k < 2 ^ 12
      → write_byte m (add32 a k) v ≡ (put_page m (a / 2 ^ 12) (update page (a % 2 ^ 12 + k) v), [])
  unfolding write_byte
  write_byte-mapped m k v page e fits =
      rw ((same_page a k bound fits).0) (ground (arith, same_page a k bound fits))

  -- A write after another to the same page.
  write_byte-put_page :
      (m : PhysicalMemory) (k v : ℕ) (page : Page)
      → a % 2 ^ 12 + k < 2 ^ 12
      → write_byte (put_page m (a / 2 ^ 12) page) (add32 a k) v
        ≡ (put_page m (a / 2 ^ 12) (update page (a % 2 ^ 12 + k) v), [])
  write_byte-put_page m k v page fits =
      write_byte-mapped (put_page m (a / 2 ^ 12) page) k v page (ground arith) fits
      ∙ ap (λ n. (n, [])) (put_page-put_page m (a / 2 ^ 12) page (update page (a % 2 ^ 12 + k) v))

  write_byte-first :
      (m : PhysicalMemory) (v : ℕ) (page : Page)
      → m.pages (a / 2 ^ 12) ≡ some page
      → write_byte m a v ≡ (put_page m (a / 2 ^ 12) (update page (a % 2 ^ 12) v), [])
  unfolding write_byte
  write_byte-first m v page e =
      rw (same_address, same_offset) at (write_byte-mapped m 0 v page e (omega arith))
    where
      same_address : add32 a 0 ≡ a
      same_address = omega arith

      same_offset : a % 2 ^ 12 + 0 ≡ a % 2 ^ 12
      same_offset = omega arith

  -- The page after the two or four low bytes of `v` are written.
  abbrev put2 : Page → ℕ → Page
  put2 page v = update (update page (a % 2 ^ 12) (v % 2 ^ 8)) (a % 2 ^ 12 + 1) (v / 2 ^ 8 % 2 ^ 8)

  abbrev put4 : Page → ℕ → Page
  put4 page v =
      update (update (put2 page v) (a % 2 ^ 12 + 2) (v / 2 ^ 16 % 2 ^ 8)) (a % 2 ^ 12 + 3)
        (v / 2 ^ 24 % 2 ^ 8)

  module _ (m : PhysicalMemory) (v : ℕ) (page : Page) (e : m.pages (a / 2 ^ 12) ≡ some page) where
    store16_mapped : a % 2 ≡ 0 → store16 m a v ≡ (put_page m (a / 2 ^ 12) (put2 page v), [])
    unfolding store16
    store16_mapped aligned =
        let checks =
          checks2_pass m a bound TrapCause.store_misaligned TrapCause.store_fault e aligned in
        rw (
          checks.0,
          checks.1,
          checks.2,
          bit_and_mask 8 v,
          bit_and_mask 8 (v / 2 ^ 8),
          write_byte-first m (v % 2 ^ 8) page e,
          write_byte-put_page m 1 (v / 2 ^ 8 % 2 ^ 8) (update page (a % 2 ^ 12) (v % 2 ^ 8))
              (omega arith),
        )

    store32_mapped : a % 4 ≡ 0 → store32 m a v ≡ (put_page m (a / 2 ^ 12) (put4 page v), [])
    unfolding store32
    store32_mapped aligned =
        let checks =
          checks4_pass m a bound TrapCause.store_misaligned TrapCause.store_fault e aligned in
        rw (
          checks.0,
          checks.1,
          checks.2,
          bit_and_mask 8 v,
          bit_and_mask 8 (v / 2 ^ 8),
          bit_and_mask 8 (v / 2 ^ 16),
          bit_and_mask 8 (v / 2 ^ 24),
          write_byte-first m (v % 2 ^ 8) page e,
          write_byte-put_page m 1 (v / 2 ^ 8 % 2 ^ 8) (update page (a % 2 ^ 12) (v % 2 ^ 8))
              (omega arith),
          write_byte-put_page m 2 (v / 2 ^ 16 % 2 ^ 8) (put2 page v) (omega arith),
          write_byte-put_page m 3 (v / 2 ^ 24 % 2 ^ 8)
              (update (put2 page v) (a % 2 ^ 12 + 2) (v / 2 ^ 16 % 2 ^ 8)) (omega arith),
        )

  -- The byte map after a store of `n` bytes.
  abbrev pub overlay : ℕ → ℕ → (ℕ → Option ℕ) → ℕ → Option ℕ
  overlay n v bytes b =
      if leb a b && ltb b (a + n) then some (v / 2 ^ (8 * (b - a)) % 2 ^ 8) else bytes b

  byte_at-put4 :
      (m : PhysicalMemory) (v : ℕ) (page : Page) (b : ℕ)
      → m.pages (a / 2 ^ 12) ≡ some page
      → a % 4 ≡ 0
      → byte_at (put_page m (a / 2 ^ 12) (put4 page v)) b ≡ overlay 4 v (byte_at m) b
  unfolding byte_at
  byte_at-put4 m v page b e aligned = ground arith

  byte_at-put2 :
      (m : PhysicalMemory) (v : ℕ) (page : Page) (b : ℕ)
      → m.pages (a / 2 ^ 12) ≡ some page
      → a % 2 ≡ 0
      → byte_at (put_page m (a / 2 ^ 12) (put2 page v)) b ≡ overlay 2 v (byte_at m) b
  unfolding byte_at
  byte_at-put2 m v page b e aligned = ground arith

  module _ (m : PhysicalMemory) (v : ℕ) where
    store16_misaligned : a % 2 ≢ 0 → store16 m a v ≡ (m, raise_fault m TrapCause.store_misaligned a)
    unfolding store16
    store16_misaligned odd =
        rw (misaligned2 m a bound TrapCause.store_misaligned TrapCause.store_fault odd)

    store16_unmapped :
        m.pages (a / 2 ^ 12) ≡ none
        → a % 2 ≡ 0
        → store16 m a v ≡ (m, raise_fault m TrapCause.store_fault a)
    unfolding store16
    store16_unmapped e aligned =
        let checks =
          unmapped2 m a bound TrapCause.store_misaligned TrapCause.store_fault e aligned in
        rw (checks.0, checks.1, checks.2)

    store32_misaligned : a % 4 ≢ 0 → store32 m a v ≡ (m, raise_fault m TrapCause.store_misaligned a)
    unfolding store32
    store32_misaligned odd =
        rw (misaligned4 m a bound TrapCause.store_misaligned TrapCause.store_fault odd)

    store32_unmapped :
        m.pages (a / 2 ^ 12) ≡ none
        → a % 4 ≡ 0
        → store32 m a v ≡ (m, raise_fault m TrapCause.store_fault a)
    unfolding store32
    store32_unmapped e aligned =
        let checks =
          unmapped4 m a bound TrapCause.store_misaligned TrapCause.store_fault e aligned in
        rw (checks.0, checks.1, checks.2)

  -- A store that succeeds writes the low `n` bytes; one that does not, changes nothing. `can_store`
  -- is the exact condition.
  abbrev pub can_store : PhysicalMemory → ℕ → Bool
  can_store m n = a % n == 0 && elim (byte_at m a) [ none ↦ false | some v ↦ true ]

  abbrev pub IsStored : PhysicalMemory → ℕ → ℕ → PhysicalMemory × List Trap → Type 0
  IsStored m n v result =
      ((b : ℕ)
        → byte_at result.0 b ≡ (if can_store m n then overlay n v (byte_at m) b else byte_at m b))
      × (result.1 ≡ expected_traps m a n)

  byte_at-page :
      (m : PhysicalMemory) {page : Page}
      → m.pages (a / 2 ^ 12) ≡ some page
      → byte_at m a ≡ some (page (a % 2 ^ 12))
  unfolding byte_at
  byte_at-page m e = rw (e, byte_at)

  byte_at-unmapped : (m : PhysicalMemory) → m.pages (a / 2 ^ 12) ≡ none → byte_at m a ≡ none
  unfolding byte_at
  byte_at-unmapped m e = rw (e, byte_at)

  -- store32 at a 32-bit address that is a multiple of 4 and mapped writes the four bytes of the
  -- value in little-endian order, changes no other byte and calls no trap; at any other address every
  -- byte stays as it was, and the only call of a sink that is set reports the fault or the
  -- misalignment.
  pub store32_lem : (m : PhysicalMemory) (v : ℕ) → IsStored m 4 v (store32 m a v)
  store32_lem m v = elim (Bool-cases (a % 4 == 0)) [
    | inl h ↦ elim (Option-cases (m.pages (a / 2 ^ 12))) [
      | inl e ↦
          rw (store32_unmapped m v e ((==_iff _ _).0 h), h, byte_at-unmapped m e) (λ b. refl, refl)
      | inr (page, e) ↦
          rw (store32_mapped m v page e ((==_iff _ _).0 h), h, byte_at-page m e)
            (λ b. byte_at-put4 m v page b e ((==_iff _ _).0 h), refl)
    ]
    | inr h ↦ rw (store32_misaligned m v (ground arith), h) (λ b. refl, refl)
  ]

  pub store16_lem : (m : PhysicalMemory) (v : ℕ) → IsStored m 2 v (store16 m a v)
  store16_lem m v = elim (Bool-cases (a % 2 == 0)) [
    | inl h ↦ elim (Option-cases (m.pages (a / 2 ^ 12))) [
      | inl e ↦
          rw (store16_unmapped m v e ((==_iff _ _).0 h), h, byte_at-unmapped m e) (λ b. refl, refl)
      | inr (page, e) ↦
          rw (store16_mapped m v page e ((==_iff _ _).0 h), h, byte_at-page m e)
            (λ b. byte_at-put2 m v page b e ((==_iff _ _).0 h), refl)
    ]
    | inr h ↦ rw (store16_misaligned m v (ground arith), h) (λ b. refl, refl)
  ]

  IsStored-IsBytes :
      (m : PhysicalMemory) (n v : ℕ) (r : PhysicalMemory × List Trap)
      → IsStored m n v r
      → IsBytes m
      → IsBytes r.0
  IsStored-IsBytes m n v r h bytes b w e = ground (arith, h.0 b, bytes b w)

  pub store16-IsBytes : (m : PhysicalMemory) (v : ℕ) → IsBytes m → IsBytes (store16 m a v).0
  store16-IsBytes m v = IsStored-IsBytes m 2 v _ (store16_lem m v)

  pub store32-IsBytes : (m : PhysicalMemory) (v : ℕ) → IsBytes m → IsBytes (store32 m a v).0
  store32-IsBytes m v = IsStored-IsBytes m 4 v _ (store32_lem m v)

  word_at-bytes :
      (m : PhysicalMemory) (v : ℕ)
      → v < 2 ^ 32
      → ((k : ℕ) → k < 4 → byte_at m (a + k) ≡ some (v / 2 ^ (8 * k) % 2 ^ 8))
      → word_at m a 4 ≡ some v
  unfolding word_at
  word_at-bytes m v small h = ground (arith, h 0, h 1, h 2, h 3)

  -- A word that is stored can be loaded back, and neither access traps.
  pub load32-store32 :
      (m : PhysicalMemory) (v : ℕ)
      → IsBytes m
      → a % 4 ≡ 0
      → byte_at m a ≢ none
      → v < 2 ^ 32
      → (load32 (store32 m a v).0 a ≡ (v, [])) × ((store32 m a v).1 ≡ [])
  load32-store32 m v bytes aligned mapped small =
      let written = store32_lem m v in
      let word : word_at (store32 m a v).0 a 4 ≡ some v =
        word_at-bytes _ v small λ k below. ground (arith, written.0 (a + k)) in
      (
        rw (load32_lem _ a bound (store32-IsBytes m v bytes), word) (ground arith),
        ground (arith, written.1),
      )
