-- ===== src/Elf/Loaded.antt =====
-- What a loaded image is: src/elf/loader.cpp.
use risc_e.Base.{
  ℕ, zero, suc, ◌+◌, ◌-◌, ◌%◌, ◌^◌, ◌≤◌, ◌<◌, ◌≡◌, refl, arith, max, Bool, true, false, not, List,
  [], ◌∷◌, length, get_or, take, drop, replicate, All, All-append, All-replicate, All-get_or,
  length-append, length-take, length-drop, length-replicate, Bool-cases, inl, inr,
}
use risc_e.Elf.{
  LoadedSegment, LoadedElf, LoadError, Loading, loaded, failed, ◌>>=◌, ◌>>◌, require, ehdr, phdr,
  Phdr, is_load, segment, extract_from, extract_segments, scan_from, load_elf, u32_at,
}

abbrev pub IsByte : ℕ → Type 0
IsByte v = v < 2 ^ 8

module _ {ℓ} {A : Type ℓ} where
  All-take {κ} : (P : A → Type κ) (n : ℕ) (xs : List A) → All P xs → All P (take n xs)
  All-take P zero xs h = tt
  All-take P (suc n) [] h = tt
  All-take P (suc n) (x ∷ xs) h = (h.0, All-take P n xs h.1)

  All-drop {κ} : (P : A → Type κ) (n : ℕ) (xs : List A) → All P xs → All P (drop n xs)
  All-drop P zero xs h = h
  All-drop P (suc n) [] h = tt
  All-drop P (suc n) (x ∷ xs) h = All-drop P n xs h.1

-- What holds of the value, if the loading succeeds.
abbrev pub Succeeds {ℓ κ} : {A : Type ℓ} → (A → Type κ) → Loading A → Type κ
Succeeds P (loaded a) = P a
Succeeds P (failed e) = Unit

require-Succeeds {ℓ κ} :
    {A : Type ℓ} (P : A → Type κ) (ok : Bool) (e : LoadError) (next : Loading A)
    → (ok ≡ true → Succeeds P next)
    → Succeeds P (require ok e >> next)
unfolding require
require-Succeeds P true e next h = h refl
require-Succeeds P false e next h = tt

bind-Succeeds {ℓ κ μ ν} :
    {A : Type ℓ} {B : Type κ} (P : A → Type μ) (Q : B → Type ν) (m : Loading A) (f : A → Loading B)
    → Succeeds P m
    → ((a : A) → P a → Succeeds Q (f a))
    → Succeeds Q (m >>= f)
bind-Succeeds P Q (loaded a) f h k = k a h
bind-Succeeds P Q (failed e) f h k = tt

-- A segment at a 32-bit address, of exactly `size` bytes, that ends at `end` or below.
pub record IsPlaced (end : ℕ) (s : LoadedSegment) : Type 0 where
  pub vaddr : s.vaddr < 2 ^ 32
  pub bytes : All IsByte s.bytes
  pub size : length s.bytes ≡ s.size
  pub below : s.vaddr + s.size ≤ end

abbrev pub IsImage : LoadedElf → Type 0
IsImage elf = (elf.end_vaddr < 2 ^ 32) × All (IsPlaced elf.end_vaddr) elf.segments

module _ (file : List ℕ) (h : All IsByte file) where
  u32_at-lt : (offset : ℕ) → u32_at file offset < 2 ^ 32
  u32_at-lt offset =
      let byte : (k : ℕ) → get_or file k 0 < 2 ^ 8 =
        λ k. All-get_or IsByte file k 0 h (omega arith) in
      omega (arith, byte offset, byte (offset + 1), byte (offset + 2), byte (offset + 2 + 1))

  segment-IsPlaced :
      (ph : Phdr) (end : ℕ)
      → ph.p_vaddr < 2 ^ 32
      → ph.p_filesz ≤ ph.p_memsz
      → ph.p_offset + ph.p_filesz ≤ length file
      → ph.p_vaddr + ph.p_memsz ≤ end
      → IsPlaced end (segment file ph)
  segment-IsPlaced ph end address sizes inside below = record {
    vaddr = address;
    bytes =
        All-append IsByte _ _ (All-take IsByte ph.p_filesz _ (All-drop IsByte ph.p_offset file h))
          (All-replicate IsByte (ph.p_memsz - ph.p_filesz) 0 (omega arith));
    size = omega (
      arith,
      length-append (take ph.p_filesz (drop ph.p_offset file))
          (replicate (ph.p_memsz - ph.p_filesz) 0),
      length-take ph.p_filesz (drop ph.p_offset file),
      length-drop ph.p_offset file,
      length-replicate {A = ℕ} (ph.p_memsz - ph.p_filesz) 0,
    );
    below = below;
  }

  -- The scan never loses a segment's end.
  scan_from-le :
      (left i max_vaddr : ℕ) (found : Bool) → max_vaddr ≤ (scan_from file left i max_vaddr found).0
  unfolding scan_from
  scan_from-le zero i max_vaddr found = omega arith
  scan_from-le (suc left) i max_vaddr found = ground (
    arith,
    scan_from-le left (i + 1) max_vaddr found,
    scan_from-le left (i + 1) (max max_vaddr ((phdr file i).p_vaddr + (phdr file i).p_memsz)) true,
  )

  extract_from-IsPlaced :
      (left i max_vaddr : ℕ) (found : Bool)
      → Succeeds
          (All (IsPlaced (scan_from file left i max_vaddr found).0))
          (extract_from file left i)
  unfolding extract_from scan_from
  extract_from-IsPlaced zero i max_vaddr found = tt
  extract_from-IsPlaced (suc left) i max_vaddr found =
      let ph = phdr file i in
      let end = max max_vaddr (ph.p_vaddr + ph.p_memsz) in
      elim (Bool-cases (not (is_load ph))) [
        | inl e ↦
            rw (e, extract_from, scan_from) (extract_from-IsPlaced left (i + 1) max_vaddr found)
        | inr e ↦
            rw (e, extract_from, scan_from)
              (require-Succeeds (All (IsPlaced (scan_from file left (i + 1) end true).0)) _ _ _
                λ sizes.
                  require-Succeeds (All (IsPlaced (scan_from file left (i + 1) end true).0)) _ _ _
                    λ inside.
                      bind-Succeeds (All (IsPlaced (scan_from file left (i + 1) end true).0))
                        (All (IsPlaced (scan_from file left (i + 1) end true).0)) _ _
                        (extract_from-IsPlaced left (i + 1) end true)
                        λ segments rest. (
                          segment-IsPlaced ph (scan_from file left (i + 1) end true).0 (u32_at-lt _)
                              (ground arith) (ground arith)
                              (omega (arith, scan_from-le left (i + 1) end true)),
                          rest,
                        ))
      ]

  -- An image that the loader accepts, of a file of bytes, ends below 2 ^ 32, and each of its segments
  -- is exactly its size in bytes, at a 32-bit address, and ends at `end_vaddr` or below.
  pub load_elf-IsPlaced : Succeeds IsImage (load_elf file)
  unfolding load_elf extract_segments
  load_elf-IsPlaced =
      let scan = scan_from file (ehdr file).e_phnum 0 0 false in
      let check : (ok : Bool) (e : LoadError) (next : Loading LoadedElf)
          → (ok ≡ true → Succeeds IsImage next)
          → Succeeds IsImage (require ok e >> next) =
        require-Succeeds IsImage in
      check _ _ _ λ _. check _ _ _ λ _. check _ _ _ λ _. check _ _ _ λ _. check _ _ _ λ _.
        check _ _ _ λ _. check _ _ _ λ _. check _ _ _ λ _. check _ _ _ λ _. check _ _ _ λ _.
          check _ _ _ λ _. check _ _ _ λ _. check _ _ _ λ inside.
            bind-Succeeds (All (IsPlaced scan.0)) IsImage _ _
              (extract_from-IsPlaced (ehdr file).e_phnum 0 0 false)
              λ segments placed.
                let small : scan.0 % 2 ^ 32 ≡ scan.0 = ground arith in
                rw small (ground arith, placed)
