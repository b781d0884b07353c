-- ===== src/Interpreter/Loads.antt =====
-- execute_load of src/interpreter/interpreter.cpp on every encoding, aligned or not, mapped or not.
use risc_e.Base.{
  ℕ, ◌+◌, ◌-◌, ◌*◌, ◌/◌, ◌%◌, ◌^◌, ◌<◌, ◌≡◌, refl, arith, true, not, Option, none, some, List, ◌==◌,
  if◌then◌else◌, Bool-cases, Option-cases, inl, inr, ◌∙◌, ap,
}
use risc_e.Base.Word.{add32}
use risc_e.Cpu.Trap.{TrapCause, Trap}
use risc_e.Decoder.{DecodedInstruction}
use risc_e.Memory.{PhysicalMemory, load8, load16, raise_fault}
use risc_e.Memory.Pages.{load8_lem}
use risc_e.Memory.Access.{IsBytes, word_at}
use risc_e.Memory.Words.{expected_load, load16_lem, load32_lem}
use risc_e.Memory.Ranges.{load8-lt, load16-lt}
use risc_e.Memory.Faults.{raise_fault-sink}
use risc_e.Predictor.{BranchPredictor}
use risc_e.DCache.Trace.{DCacheKind, record_access}
use risc_e.Interpreter.Machine.{Interpreter, raise_fault_trap, halt_on_trap, enter_trap, deliver}
use risc_e.Interpreter.Execute.{
  sext8, sext16, load_value, load_size, retire, illegal, finish_load, execute_load,
}
use risc_e.Interpreter.Outcomes.{halted, retired, retire-retired}
use risc_e.Interpreter.Invariant.{IsWellFormed}

pub data LoadKind : Type 0 where
  lb lh lw lbu lhu : LoadKind

abbrev pub load_funct3 : LoadKind → ℕ
load_funct3 lb = 0
load_funct3 lh = 1
load_funct3 lw = 2
load_funct3 lbu = 4
load_funct3 lhu = 5

abbrev pub load_width : LoadKind → ℕ
load_width lb = 1
load_width lh = 2
load_width lw = 4
load_width lbu = 1
load_width lhu = 2

-- The 32-bit word of a value: its sign bit, if the load is signed, counts negatively.
abbrev pub extend : LoadKind → ℕ → ℕ
extend lb v = (v + 2 ^ 32 - 2 ^ 8 * (v / 2 ^ 7)) % 2 ^ 32
extend lh v = (v + 2 ^ 32 - 2 ^ 16 * (v / 2 ^ 15)) % 2 ^ 32
extend lw v = v
extend lbu v = v
extend lhu v = v

sext8-extend : (v : ℕ) → v < 2 ^ 8 → sext8 v ≡ extend lb v
unfolding sext8
sext8-extend v h = ground arith

sext16-extend : (v : ℕ) → v < 2 ^ 16 → sext16 v ≡ extend lh v
unfolding sext16
sext16-extend v h = ground arith

-- What load8 does is what the byte map says, as for the wider loads.
load8-expected :
    (m : PhysicalMemory) (a : ℕ)
    → load8 m a ≡ expected_load m a 1 TrapCause.load_misaligned TrapCause.load_fault
unfolding word_at
load8-expected m a = ground (arith, load8_lem m a)

expected : PhysicalMemory → LoadKind → ℕ → ℕ × List Trap
expected m k a =
    let r = expected_load m a (load_width k) TrapCause.load_misaligned TrapCause.load_fault in
    (extend k r.0, r.1)

load_value-expected :
    (m : PhysicalMemory) (k : LoadKind) (a : ℕ)
    → IsBytes m
    → a < 2 ^ 32
    → load_value m (load_funct3 k) a ≡ some (expected m k a)
unfolding load_value expected
load_value-expected m lb a h bound =
    ap (λ v. some (v, (load8 m a).1)) (sext8-extend (load8 m a).0 (load8-lt m h a))
    ∙ ap (λ r. some (extend lb r.0, r.1)) (load8-expected m a)
load_value-expected m lh a h bound =
    ap (λ v. some (v, (load16 m a).1)) (sext16-extend (load16 m a).0 (load16-lt m h a bound))
    ∙ ap (λ r. some (extend lh r.0, r.1)) (load16_lem m a bound h)
load_value-expected m lw a h bound = ap some (load32_lem m a bound h)
load_value-expected m lbu a h bound = ap some (load8-expected m a)
load_value-expected m lhu a h bound = ap some (load16_lem m a bound h)

load_size-width : (k : LoadKind) → load_size (load_funct3 k) ≡ load_width k
load_size-width lb = refl
load_size-width lh = refl
load_size-width lw = refl
load_size-width lbu = refl
load_size-width lhu = refl

module _ {p : BranchPredictor} where
  -- The state after a load by the byte map: the register, the program counter and the trace on
  -- success, the trap and nothing else on a fault.
  abbrev pub load_outcome : LoadKind → Interpreter p → DecodedInstruction → ℕ → Interpreter p
  load_outcome k i d a =
      if a % load_width k == 0
      then elim (word_at i.mem a (load_width k)) [
        | none ↦ halted i TrapCause.load_fault a
        | some v ↦
            retired
              (record i {
                access_trace = record_access i.access_trace DCacheKind.load a (load_width k);
              })
              d.rd (extend k v)
      ]
      else halted i TrapCause.load_misaligned a

  -- A machine whose sink is set takes one trap and stops there.
  finish-fault :
      (i : Interpreter p) (d : DecodedInstruction) (cause : TrapCause) (a b v : ℕ)
      → i.mem.has_sink ≡ true
      → finish_load (deliver i (raise_fault i.mem cause a)) d b v ≡ halted i cause a
  unfolding finish_load deliver raise_fault_trap halt_on_trap enter_trap
  finish-fault i d cause a b v sink =
      ap (λ ts. finish_load (deliver i ts) d b v) (raise_fault-sink i.mem cause a sink)

  finish-loaded :
      (k : LoadKind) (i : Interpreter p) (d : DecodedInstruction) (a v : ℕ)
      → i.cpu.running ≡ true
      → d.funct3 ≡ load_funct3 k
      → finish_load i d a v
        ≡ retired
            (record i {
              access_trace = record_access i.access_trace DCacheKind.load a (load_width k);
            })
            d.rd
            v
  unfolding finish_load
  finish-loaded k i d a v running e =
      ap (λ b. if not b then i else retire (traced (load_size d.funct3)) d.rd v) running
      ∙ ap (λ n. retire (traced n) d.rd v) (ap load_size e ∙ load_size-width k)
      ∙ retire-retired (traced (load_width k)) d.rd v
    where
      traced : ℕ → Interpreter p
      traced n = record i { access_trace = record_access i.access_trace DCacheKind.load a n }

  finish-expected :
      (k : LoadKind) (i : Interpreter p) (d : DecodedInstruction) (a : ℕ)
      → i.mem.has_sink ≡ true
      → i.cpu.running ≡ true
      → d.funct3 ≡ load_funct3 k
      → finish_load (deliver i (expected i.mem k a).1) d a (expected i.mem k a).0
        ≡ load_outcome k i d a
  unfolding expected deliver
  finish-expected k i d a sink running e = elim (Bool-cases (a % load_width k == 0)) [
    | inl aligned ↦ elim (Option-cases (word_at i.mem a (load_width k))) [
      | inl none_there ↦ rw (aligned, none_there) (finish-fault i d _ a a _ sink)
      | inr (v, word) ↦ rw (aligned, word) (finish-loaded k i d a (extend k v) running e)
    ]
    | inr odd ↦ rw odd (finish-fault i d _ a a _ sink)
  ]

  -- Each of the five loads on a well-formed running machine, by the bytes of its memory: a misaligned
  -- or unmapped address halts the machine with a trap that names it, with every register, the program
  -- counter and the access trace as they were; any other writes the zero- or sign-extended
  -- little-endian value to rd, records the access and goes on to the next instruction.
  pub execute_load-outcome :
      (k : LoadKind) (i : Interpreter p) (d : DecodedInstruction)
      → IsWellFormed i
      → i.cpu.running ≡ true
      → d.funct3 ≡ load_funct3 k
      → execute_load i d ≡ load_outcome k i d (add32 (i.cpu.x d.rs1) d.imm)
  unfolding execute_load
  execute_load-outcome k i d h running e =
      let a = add32 (i.cpu.x d.rs1) d.imm in
      ap (after a)
        (ap (λ f. load_value i.mem f a) e ∙ load_value-expected i.mem k a h.mem.bytes (omega arith))
      ∙ finish-expected k i d a h.mem.sink running e
    where
      after : ℕ → Option (ℕ × List Trap) → Interpreter p
      after a r = elim r [ none ↦ illegal i d | some r ↦ finish_load (deliver i r.1) d a r.0 ]
