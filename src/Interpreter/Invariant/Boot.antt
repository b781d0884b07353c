-- ===== src/Interpreter/Invariant/Boot.antt =====
-- From the file to the first step: load_elf of src/elf/loader.cpp, then the constructor of
-- src/interpreter/interpreter.cpp.
use risc_e.Base.{ℕ, List, [], ◌∷◌, All, Option}
use risc_e.Elf.{LoadedElf, LoadedSegment, Loading, loaded, failed, load_elf}
use risc_e.Elf.Loaded.{IsByte, Succeeds, IsPlaced, IsImage, load_elf-IsPlaced}
use risc_e.Predictor.{BranchPredictor}
use risc_e.Interpreter.Run.{new}
use risc_e.Interpreter.Invariant.{IsWellFormed}
use risc_e.Interpreter.Invariant.Run.{IsSegment, new-IsWellFormed}

IsPlaced-IsSegment :
    (end : ℕ) (segments : List LoadedSegment) → All (IsPlaced end) segments → All IsSegment segments
IsPlaced-IsSegment end [] h = tt
IsPlaced-IsSegment end (s ∷ rest) h =
    (record { vaddr = h.0.vaddr; bytes = h.0.bytes }, IsPlaced-IsSegment end rest h.1)

module _ (p : BranchPredictor) (predictor : Option p.State) where
  image-IsWellFormed :
      (r : Loading LoadedElf)
      → Succeeds IsImage r
      → Succeeds (λ (elf : LoadedElf). IsWellFormed (new {p = p} elf predictor)) r
  image-IsWellFormed (loaded elf) h =
      new-IsWellFormed elf predictor (IsPlaced-IsSegment elf.end_vaddr elf.segments h.1)
  image-IsWellFormed (failed e) h = tt

  -- Whatever bytes a file holds, the loader rejects it or the interpreter that is built from its image
  -- is well-formed.
  pub boot-IsWellFormed :
      (file : List ℕ)
      → All IsByte file
      → Succeeds (λ (elf : LoadedElf). IsWellFormed (new {p = p} elf predictor)) (load_elf file)
  boot-IsWellFormed file h = image-IsWellFormed (load_elf file) (load_elf-IsPlaced file h)
