-- ===== src/Elf/Tests.antt =====
-- Witnesses for the theorems on loaded images, on the file of `addi a7, zero, 93; ecall` with four
-- bytes of zeros behind it.
use risc_e.Base.{ℕ, List, [], ◌∷◌, All, arith, ◌≡◌, refl}
use risc_e.Elf.{
  LoadedElf, Loading, loaded, failed, load_elf, require, is_magic, scan_from, extract_from,
  extract_segments,
}
use risc_e.Elf.Loaded.{IsByte, IsImage, Succeeds, load_elf-IsPlaced}

abbrev pub exit_file : List ℕ
exit_file =
    127 ∷ 69 ∷ 76 ∷ 70 ∷ 1 ∷ 1 ∷ 1 ∷ 0 ∷ 0 ∷ 0 ∷ 0 ∷ 0 ∷ 0 ∷ 0 ∷ 0 ∷ 0 ∷ 2 ∷ 0 ∷ 243 ∷ 0 ∷ 1 ∷ 0 ∷ 0
    ∷ 0 ∷ 0 ∷ 16 ∷ 0 ∷ 0 ∷ 52 ∷ 0 ∷ 0 ∷ 0 ∷ 0 ∷ 0 ∷ 0 ∷ 0 ∷ 0 ∷ 0 ∷ 0 ∷ 0 ∷ 52 ∷ 0 ∷ 32 ∷ 0 ∷ 1 ∷ 0
    ∷ 0 ∷ 0 ∷ 0 ∷ 0 ∷ 0 ∷ 0 ∷ 1 ∷ 0 ∷ 0 ∷ 0 ∷ 84 ∷ 0 ∷ 0 ∷ 0 ∷ 0 ∷ 16 ∷ 0 ∷ 0 ∷ 0 ∷ 16 ∷ 0 ∷ 0 ∷ 8
    ∷ 0 ∷ 0 ∷ 0 ∷ 12 ∷ 0 ∷ 0 ∷ 0 ∷ 5 ∷ 0 ∷ 0 ∷ 0 ∷ 4 ∷ 0 ∷ 0 ∷ 0 ∷ 147 ∷ 8 ∷ 208 ∷ 5 ∷ 115 ∷ 0 ∷ 0
    ∷ 0 ∷ []

pub exit_file-IsByte : All IsByte exit_file
exit_file-IsByte = ground arith

-- Where the image ends, or 0 for an error.
abbrev end_of : Loading LoadedElf → ℕ
end_of (loaded elf) = elf.end_vaddr
end_of (failed e) = 0

accepted : end_of (load_elf exit_file) ≡ 0x100c
unfolding load_elf require is_magic scan_from extract_segments extract_from
accepted = refl

load_elf-IsPlaced_example : Succeeds IsImage (load_elf exit_file)
load_elf-IsPlaced_example = load_elf-IsPlaced exit_file exit_file-IsByte
