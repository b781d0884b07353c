-- ===== src/Interpreter/Invariant/Run.antt =====
-- The well-formedness of an interpreter from its constructor through step and run:
-- src/interpreter/interpreter.cpp.
use risc_e.Base.{
  ℕ, zero, suc, ◌+◌, ◌^◌, ◌<◌, refl, arith, true, false, not, Option, none, some, List, [], ◌∷◌,
  All, All-get_or, if-cases, ◌∙◌, get_or,
}
use risc_e.Base.Word.{u32, add32}
use risc_e.Base.Bits.{bit_and-lt}
use risc_e.Decoder.{decode_raw_inst}
use risc_e.Decoder.Bounds.{decode_imm-lt}
use risc_e.Elf.{LoadedSegment, LoadedElf}
use risc_e.Memory.{PhysicalMemory, empty, set_trap_sink, map_region, store8, fetch32}
use risc_e.Memory.Pages.{byte_at}
use risc_e.Memory.Faults.{store8-IsSafe}
use risc_e.Memory.Ranges.{fetch32-lt, store8-IsBytes}
use risc_e.Predictor.{BranchPredictor}
use risc_e.ICache.Profile
use risc_e.Interpreter.Machine.{Interpreter, stack_bottom, stack_size, deliver}
use risc_e.Interpreter.Run.{
  align_up, map_segments, copy_segment, copy_segments, load_elf_segments, initial_cpu,
  reset_profile_stats, reset, new, enter_block, profile, run_instruction, step, run_loop,
}
use risc_e.Interpreter.Invariant.{
  IsCpu, IsMemory, IsWellFormed, deliver-IsWellFormed, map_region-IsMemory,
}
use risc_e.Interpreter.Invariant.Execute.{execute-IsWellFormed}

module _ {p : BranchPredictor} where
  profile-IsWellFormed : (i : Interpreter p) → IsWellFormed i → IsWellFormed (profile i)
  unfolding profile enter_block
  profile-IsWellFormed i h =
      let s = record i { profile_stats = Profile.record_instruction i.profile_stats i.cpu.pc } in
      let hs : IsWellFormed (enter_block s) =
        if-cases IsWellFormed i.block_entering _ _
          (λ _. record { cpu = h.cpu; mem = h.mem; heap = h.heap })
          (λ _. record { cpu = h.cpu; mem = h.mem; heap = h.heap }) in
      record { cpu = hs.cpu; mem = hs.mem; heap = hs.heap }

  run_instruction-IsWellFormed :
      (i : Interpreter p) (inst : ℕ)
      → inst < 2 ^ 32
      → IsWellFormed i
      → IsWellFormed (run_instruction i inst)
  unfolding run_instruction
  run_instruction-IsWellFormed i inst bound h =
      let done =
        execute-IsWellFormed (profile i) (decode_raw_inst inst i.cpu.pc)
          (decode_imm-lt inst i.cpu.pc bound) (profile-IsWellFormed i h) in
      record { cpu = done.cpu; mem = done.mem; heap = done.heap }

  -- A step keeps a well-formed interpreter well-formed: register 0 stays 0, every register and the
  -- program counter stay 32-bit words, the memory holds bytes and reports its faults, and the heap
  -- ends below 2 ^ 32.
  pub step-IsWellFormed : (i : Interpreter p) → IsWellFormed i → IsWellFormed (step i)
  unfolding step
  step-IsWellFormed i h =
      let fetched = fetch32 i.mem i.cpu.pc in
      let counted = record i { inst_count = i.inst_count + 1 } in
      let hj =
        deliver-IsWellFormed counted fetched.1
          (record { cpu = h.cpu; mem = h.mem; heap = h.heap }) in
      if-cases IsWellFormed (not i.cpu.running) _ _ (λ _. h)
        λ _.
          if-cases IsWellFormed (not (deliver counted fetched.1).cpu.running) _ _ (λ _. hj)
            λ _.
              run_instruction-IsWellFormed _ fetched.0
                (fetch32-lt i.mem h.mem.bytes i.cpu.pc h.cpu.pc) hj

  -- What holds of the state in which the loop stops, if it does.
  abbrev pub Stops : (Interpreter p → Type 0) → Option (Interpreter p) → Type 0
  Stops P none = Unit
  Stops P (some j) = P j

  pub run_loop-IsWellFormed :
      (fuel : ℕ) (i : Interpreter p) → IsWellFormed i → Stops IsWellFormed (run_loop fuel i)
  unfolding run_loop
  run_loop-IsWellFormed zero i h =
      if-cases (Stops IsWellFormed) i.cpu.running _ _ (λ _. tt) (λ _. h)
  run_loop-IsWellFormed (suc fuel) i h =
      elim i.cpu.running
        as (λ running.
          Stops IsWellFormed (elim running [ true ↦ run_loop fuel (step i) | false ↦ some i ])) [
            | true ↦ run_loop-IsWellFormed fuel (step i) (step-IsWellFormed i h)
            | false ↦ h
          ]

-- What the loader gives: addresses are 32-bit words and the data are bytes.
pub record IsSegment (s : LoadedSegment) : Type 0 where
  pub vaddr : s.vaddr < 2 ^ 32
  pub bytes : All (λ v. v < 2 ^ 8) s.bytes

map_segments-IsMemory :
    (m : PhysicalMemory) (segments : List LoadedSegment)
    → All IsSegment segments
    → IsMemory m
    → IsMemory (map_segments m segments)
unfolding map_segments
map_segments-IsMemory m [] hs h = h
map_segments-IsMemory m (s ∷ rest) hs h =
    map_segments-IsMemory (map_region m s.vaddr s.size) rest hs.1
      (map_region-IsMemory m s.vaddr s.size hs.0.vaddr h)

copy_segment-IsMemory :
    (m : PhysicalMemory) (s : LoadedSegment) (left index : ℕ)
    → IsSegment s
    → IsMemory m
    → IsMemory (copy_segment m s left index)
unfolding copy_segment
copy_segment-IsMemory m s zero index hs h = h
copy_segment-IsMemory m s (suc left) index hs h =
    let a = add32 s.vaddr (u32 index) in
    let v = get_or s.bytes index 0 in
    copy_segment-IsMemory (store8 m a v).0 s left (index + 1) hs (record {
      bytes =
          store8-IsBytes m a v (All-get_or (λ b. b < 2 ^ 8) s.bytes index 0 hs.bytes (omega arith))
            h.bytes;
      sink = (store8-IsSafe m a v).0 ∙ h.sink;
    })

copy_segments-IsMemory :
    (m : PhysicalMemory) (segments : List LoadedSegment)
    → All IsSegment segments
    → IsMemory m
    → IsMemory (copy_segments m segments)
unfolding copy_segments
copy_segments-IsMemory m [] hs h = h
copy_segments-IsMemory m (s ∷ rest) hs h =
    copy_segments-IsMemory (copy_segment m s s.size 0) rest hs.1
      (copy_segment-IsMemory m s s.size 0 hs.0 h)

empty-IsMemory : IsMemory (set_trap_sink empty)
unfolding empty set_trap_sink byte_at
empty-IsMemory = record { bytes = λ a v e. ground arith; sink = refl }

align_up-lt : (value : ℕ) → value < 2 ^ 32 → align_up value 16 < 2 ^ 32
unfolding align_up
align_up-lt value h = bit_and-lt 32 _ _ (omega arith) (omega arith)

initial_cpu-IsCpu : (entry : ℕ) → entry < 2 ^ 32 → IsCpu (initial_cpu entry)
initial_cpu-IsCpu entry h = record {
  zero_register = refl;
  registers = λ r. ground arith;
  pc = h;
  mepc = omega arith;
}

module _ {p : BranchPredictor} where
  -- A new interpreter for a loaded image, whose data are bytes at 32-bit addresses, is well-formed.
  pub new-IsWellFormed :
      (elf : LoadedElf) (predictor : Option p.State)
      → All IsSegment elf.segments
      → IsWellFormed (new {p = p} elf predictor)
  unfolding new reset reset_profile_stats load_elf_segments
  new-IsWellFormed elf predictor h = record {
    cpu = initial_cpu-IsCpu (u32 elf.entry) (omega arith);
    mem = copy_segments-IsMemory _ elf.segments h (
        map_segments-IsMemory _ elf.segments h
          (map_region-IsMemory _ stack_bottom stack_size (omega arith) empty-IsMemory));
    heap = align_up-lt _ (omega arith);
  }
