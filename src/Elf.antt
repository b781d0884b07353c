-- ===== src/Elf.antt =====
-- The ELF loader: src/elf/loader.cpp and include/risc-e/elf/loader.hpp.
-- The file is the list of its bytes; reading it from disk is not modelled, but for the check that it
-- is not empty. An exception is an error value.
pub mod Loaded
pub mod Tests
use risc_e.Base.{
  ℕ, zero, suc, ◌+◌, ◌-◌, ◌*◌, ◌^◌, max, Bool, true, false, not, List, [], ◌∷◌, ◌++◌, length,
  get_or, take, drop, replicate, ltb, ◌==◌, ◌&&◌, ◌||◌, if◌then◌else◌,
}
use risc_e.Base.Word.{u32}

pub record LoadedSegment : Type 0 where
  pub vaddr : ℕ
  pub size : ℕ
  pub flags : ℕ
  pub bytes : List ℕ

pub record LoadedElf : Type 0 where
  pub entry : ℕ
  pub end_vaddr : ℕ
  pub segments : List LoadedSegment

-- The messages of the exceptions.
pub data LoadError : Type 0 where
  file_is_empty too_small bad_magic not_32_bit not_little_endian bad_identification_version :
      LoadError
  bad_version not_executable not_riscv unexpected_header_size headers_beyond_file : LoadError
  no_loadable_segments past_address_space memsz_below_filesz segment_past_eof : LoadError

pub data Loading {ℓ} (A : Type ℓ) : Type ℓ where
  loaded : A → Loading A
  failed : LoadError → Loading A

infixl 5 ◌>>=◌ ◌>>◌
abbrev pub ◌>>=◌ {ℓ κ} : {A : Type ℓ} {B : Type κ} → Loading A → (A → Loading B) → Loading B
loaded a >>= f = f a
failed e >>= f = failed e

abbrev pub ◌>>◌ {ℓ} : {B : Type ℓ} → Loading (Unit {0}) → Loading B → Loading B
m >> k = m >>= λ _. k

-- `if (!ok) throw std::runtime_error(...)`.
unfoldable pub require : Bool → LoadError → Loading (Unit {0})
require ok e = if ok then loaded tt else failed e

-- Little-endian fields. A read past the end gives zeros, where the code would read past the buffer.
abbrev pub u8_at : List ℕ → ℕ → ℕ
u8_at file offset = get_or file offset 0

abbrev pub u16_at : List ℕ → ℕ → ℕ
u16_at file offset = u8_at file offset + 256 * u8_at file (offset + 1)

abbrev pub u32_at : List ℕ → ℕ → ℕ
u32_at file offset = u16_at file offset + 65536 * u16_at file (offset + 2)

-- sizeof(Elf32_Ehdr) and sizeof(Elf32_Phdr).
abbrev pub ehdr_size : ℕ
ehdr_size = 52

abbrev pub phdr_size : ℕ
phdr_size = 32

pub record Ehdr : Type 0 where
  pub e_type : ℕ
  pub e_machine : ℕ
  pub e_version : ℕ
  pub e_entry : ℕ
  pub e_phoff : ℕ
  pub e_phentsize : ℕ
  pub e_phnum : ℕ

abbrev pub ehdr : List ℕ → Ehdr
ehdr file = record {
  e_type = u16_at file 16;
  e_machine = u16_at file 18;
  e_version = u32_at file 20;
  e_entry = u32_at file 24;
  e_phoff = u32_at file 28;
  e_phentsize = u16_at file 42;
  e_phnum = u16_at file 44;
}

pub record Phdr : Type 0 where
  pub p_type : ℕ
  pub p_offset : ℕ
  pub p_vaddr : ℕ
  pub p_filesz : ℕ
  pub p_memsz : ℕ
  pub p_flags : ℕ

-- Program header `i`.
abbrev pub phdr : List ℕ → ℕ → Phdr
phdr file i =
    let at = (ehdr file).e_phoff + i * (ehdr file).e_phentsize in
    record {
      p_type = u32_at file at;
      p_offset = u32_at file (at + 4);
      p_vaddr = u32_at file (at + 8);
      p_filesz = u32_at file (at + 16);
      p_memsz = u32_at file (at + 20);
      p_flags = u32_at file (at + 24);
    }

abbrev pub is_load : Phdr → Bool
is_load ph = ph.p_type == 1

abbrev pub segment : List ℕ → Phdr → LoadedSegment
segment file ph = record {
  vaddr = ph.p_vaddr;
  size = ph.p_memsz;
  flags = ph.p_flags;
  bytes = take ph.p_filesz (drop ph.p_offset file) ++ replicate (ph.p_memsz - ph.p_filesz) 0;
}

-- The loop of extract_segments from header `i`, with `left` headers to go.
unfoldable pub extract_from : List ℕ → ℕ → ℕ → Loading (List LoadedSegment)
extract_from file zero i = loaded []
extract_from file (suc left) i =
    let ph = phdr file i in
    let rest = extract_from file left (i + 1) in
    if not (is_load ph) then rest else do
      require (not (ltb ph.p_memsz ph.p_filesz)) LoadError.memsz_below_filesz
      require (not (ltb (length file) (ph.p_offset + ph.p_filesz))) LoadError.segment_past_eof
      segments ← rest
      loaded (segment file ph ∷ segments)

unfoldable pub extract_segments : List ℕ → Loading (List LoadedSegment)
extract_segments file = extract_from file (ehdr file).e_phnum 0

-- The loop for the highest end of a loadable segment, and whether there is one.
unfoldable pub scan_from : List ℕ → ℕ → ℕ → ℕ → Bool → ℕ × Bool
scan_from file zero i max_vaddr found = (max_vaddr, found)
scan_from file (suc left) i max_vaddr found =
    let ph = phdr file i in
    let taken = scan_from file left (i + 1) (max max_vaddr (ph.p_vaddr + ph.p_memsz)) true in
    let skipped = scan_from file left (i + 1) max_vaddr found in
    if not (is_load ph) then skipped else taken

unfoldable pub is_magic : List ℕ → Bool
is_magic file =
    u8_at file 0 == 0x7f && u8_at file 1 == 0x45 && u8_at file 2 == 0x4c && u8_at file 3 == 0x46

unfoldable pub load_elf : List ℕ → Loading LoadedElf
load_elf file =
    let eh = ehdr file in
    let scan = scan_from file eh.e_phnum 0 0 false in
    do
      require (not (length file == 0)) LoadError.file_is_empty
      require (not (ltb (length file) ehdr_size)) LoadError.too_small
      require (is_magic file) LoadError.bad_magic
      require (u8_at file 4 == 1) LoadError.not_32_bit
      require (u8_at file 5 == 1) LoadError.not_little_endian
      require (u8_at file 6 == 1) LoadError.bad_identification_version
      require (eh.e_version == 1) LoadError.bad_version
      require (eh.e_type == 2) LoadError.not_executable
      require (eh.e_machine == 243) LoadError.not_riscv
      require (eh.e_phentsize == phdr_size) LoadError.unexpected_header_size
      require (not (ltb (length file) (eh.e_phoff + eh.e_phnum * eh.e_phentsize)))
          LoadError.headers_beyond_file
      require scan.1 LoadError.no_loadable_segments
      require (not (ltb (2 ^ 32 - 1) scan.0)) LoadError.past_address_space
      segments ← extract_segments file
      loaded (record { entry = eh.e_entry; end_vaddr = u32 scan.0; segments = segments })
