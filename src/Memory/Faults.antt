-- ===== src/Memory/Faults.antt =====
-- The calls of the trap sink that memory operations make: each reports a fault or a misaligned
-- access, and no operation changes whether a sink is set.
use risc_e.Base.{
  ℕ, zero, suc, ◌+◌, ◌≡◌, refl, arith, Bool, true, false, List, [], ◌∷◌, ◌==◌, All, All-append, ◌∙◌,
  Option-cases, inl, inr,
}
use risc_e.Base.Word.{add32, ◌>>>◌}
use risc_e.Cpu.Trap.{TrapCause, Trap, code}
use risc_e.Memory.{
  PhysicalMemory, Attempt, done, failed, ◌>>=◌, ◌>>◌, ◌and_then◌, loaded, stored, raise_fault,
  read_byte, write_byte, check_alignment, check_range, check_mapped, check_mapped_from, fetch_bytes,
  load8, load16, load32, store8, store16, store32, fetch32,
}

-- Anything but an environment call.
abbrev pub IsFault : Trap → Type 0
IsFault t = (code t.cause == code TrapCause.environment_call_from_mmode) ≡ false

-- What a fallible member reports when it fails.
abbrev IsFaulting {ℓ} : {A : Type ℓ} → Attempt A → Type 0
IsFaulting (done a) = Unit
IsFaulting (failed ts) = All IsFault ts

bind-IsFaulting {ℓ κ} :
    {A : Type ℓ} {B : Type κ} (r : Attempt A) (f : A → Attempt B)
    → IsFaulting r
    → ((a : A) → IsFaulting (f a))
    → IsFaulting (r >>= f)
bind-IsFaulting (done a) f h k = k a
bind-IsFaulting (failed ts) f h k = h

raise_fault-IsFault :
    (m : PhysicalMemory) (cause : TrapCause) (addr : ℕ)
    → (code cause == 11) ≡ false
    → All IsFault (raise_fault m cause addr)
unfolding raise_fault
raise_fault-IsFault m cause addr h = ground arith

-- With a sink set, a fault is one call.
pub raise_fault-sink :
    (m : PhysicalMemory) (cause : TrapCause) (a : ℕ)
    → m.has_sink ≡ true
    → raise_fault m cause a ≡ record { cause = cause; value = a } ∷ []
unfolding raise_fault
raise_fault-sink m cause a h = rw h

module _ (m : PhysicalMemory) where
  check_alignment-IsFaulting :
      (addr size : ℕ) (cause : TrapCause)
      → (code cause == 11) ≡ false
      → IsFaulting (check_alignment m addr size cause)
  unfolding check_alignment
  check_alignment-IsFaulting addr size cause h = ground (arith, raise_fault-IsFault m cause addr h)

  check_range-IsFaulting :
      (addr size : ℕ) (cause : TrapCause)
      → (code cause == 11) ≡ false
      → IsFaulting (check_range m addr size cause)
  unfolding check_range
  check_range-IsFaulting addr size cause h = ground (arith, raise_fault-IsFault m cause addr h)

  check_mapped_from-IsFaulting :
      (addr : ℕ) (cause : TrapCause) (left i : ℕ)
      → (code cause == 11) ≡ false
      → IsFaulting (check_mapped_from m addr cause left i)
  unfolding check_mapped_from
  check_mapped_from-IsFaulting addr cause zero i h = tt
  check_mapped_from-IsFaulting addr cause (suc left) i h = ground (
    arith,
    raise_fault-IsFault m cause (add32 addr i) h,
    check_mapped_from-IsFaulting addr cause left (i + 1) h,
  )

  read_byte-IsFaulting : (addr : ℕ) → IsFaulting (read_byte m addr)
  unfolding read_byte
  read_byte-IsFaulting addr = ground (arith, raise_fault-IsFault m TrapCause.load_fault addr refl)

  fetch_bytes-IsFaulting : (addr left i result : ℕ) → IsFaulting (fetch_bytes m addr left i result)
  unfolding fetch_bytes
  fetch_bytes-IsFaulting addr zero i result = tt
  fetch_bytes-IsFaulting addr (suc left) i result =
      elim (Option-cases (m.pages (add32 addr i >>> 12))) [
        | inl e ↦
            rw (e, IsFaulting, fetch_bytes)
              (raise_fault-IsFault m TrapCause.instruction_access_fault (add32 addr i) refl)
        | inr (page, e) ↦
            rw (e, IsFaulting, fetch_bytes) (fetch_bytes-IsFaulting addr left (i + 1) _)
      ]

  loaded-IsFault : (r : Attempt ℕ) → IsFaulting r → All IsFault (loaded r).1
  loaded-IsFault (done value) h = tt
  loaded-IsFault (failed ts) h = h

  pub load8-IsFault : (addr : ℕ) → All IsFault (load8 m addr).1
  unfolding load8
  load8-IsFault addr = loaded-IsFault _ (read_byte-IsFaulting addr)

  pub load16-IsFault : (addr : ℕ) → All IsFault (load16 m addr).1
  unfolding load16
  load16-IsFault addr = loaded-IsFault _ (
      bind-IsFaulting _ _ (check_alignment-IsFaulting addr 2 _ refl) λ _.
        bind-IsFaulting _ _ (check_range-IsFaulting addr 2 _ refl) λ _.
          bind-IsFaulting _ _ (read_byte-IsFaulting addr)
            λ _. bind-IsFaulting _ _ (read_byte-IsFaulting _) λ _. tt)

  pub load32-IsFault : (addr : ℕ) → All IsFault (load32 m addr).1
  unfolding load32
  load32-IsFault addr = loaded-IsFault _ (
      bind-IsFaulting _ _ (check_alignment-IsFaulting addr 4 _ refl) λ _.
        bind-IsFaulting _ _ (check_range-IsFaulting addr 4 _ refl) λ _.
          bind-IsFaulting _ _ (read_byte-IsFaulting addr) λ _.
            bind-IsFaulting _ _ (read_byte-IsFaulting _) λ _.
              bind-IsFaulting _ _ (read_byte-IsFaulting _)
                λ _. bind-IsFaulting _ _ (read_byte-IsFaulting _) λ _. tt)

  pub fetch32-IsFault : (addr : ℕ) → All IsFault (fetch32 m addr).1
  unfolding fetch32
  fetch32-IsFault addr = loaded-IsFault _ (
      bind-IsFaulting _ _ (check_alignment-IsFaulting addr 4 _ refl) λ _.
        bind-IsFaulting _ _ (check_range-IsFaulting addr 4 _ refl)
          λ _. fetch_bytes-IsFaulting addr 4 0 0)

-- What a sequence of stores keeps.
abbrev IsSafe : Bool → PhysicalMemory × List Trap → Type 0
IsSafe sink r = (r.0.has_sink ≡ sink) × All IsFault r.1

pub write_byte-IsSafe :
    (m : PhysicalMemory) (addr value : ℕ) → IsSafe m.has_sink (write_byte m addr value)
unfolding write_byte
write_byte-IsSafe m addr value =
    ground (arith, raise_fault-IsFault m TrapCause.store_fault addr refl)

and_then-IsSafe :
    (sink : Bool) (r : PhysicalMemory × List Trap) (addr value : ℕ)
    → IsSafe sink r
    → IsSafe sink (r and_then λ m. write_byte m addr value)
and_then-IsSafe sink r addr value h =
    let next = write_byte-IsSafe r.0 addr value in
    (next.0 ∙ h.0, All-append IsFault r.1 (write_byte r.0 addr value).1 h.1 next.1)

-- The result of a store that checks first.
abbrev IsSafeOr : Bool → Attempt (PhysicalMemory × List Trap) → Type 0
IsSafeOr sink (done r) = IsSafe sink r
IsSafeOr sink (failed ts) = All IsFault ts

check-IsSafeOr :
    (sink : Bool) (r : Attempt (Unit {0})) (next : Attempt (PhysicalMemory × List Trap))
    → IsFaulting r
    → IsSafeOr sink next
    → IsSafeOr sink (r >> next)
check-IsSafeOr sink (done u) next h safe = safe
check-IsSafeOr sink (failed ts) next h safe = h

stored-IsSafe :
    (m : PhysicalMemory) (r : Attempt (PhysicalMemory × List Trap))
    → IsSafeOr m.has_sink r
    → IsSafe m.has_sink (stored m r)
stored-IsSafe m (done r) h = h
stored-IsSafe m (failed ts) h = (refl, h)

module _ (m : PhysicalMemory) (addr value : ℕ) where
  pub store8-IsSafe : IsSafe m.has_sink (store8 m addr value)
  unfolding store8
  store8-IsSafe = write_byte-IsSafe m addr value

  pub store16-IsSafe : IsSafe m.has_sink (store16 m addr value)
  unfolding store16 check_mapped
  store16-IsSafe = stored-IsSafe m _ (
      check-IsSafeOr _ _ _ (check_alignment-IsFaulting m addr 2 _ refl) (
        check-IsSafeOr _ _ _ (check_range-IsFaulting m addr 2 _ refl) (
          check-IsSafeOr _ _ _ (check_mapped_from-IsFaulting m addr _ 2 0 refl)
            (and_then-IsSafe _ _ _ _ (write_byte-IsSafe m addr _)))))

  pub store32-IsSafe : IsSafe m.has_sink (store32 m addr value)
  unfolding store32 check_mapped
  store32-IsSafe = stored-IsSafe m _ (
      check-IsSafeOr _ _ _ (check_alignment-IsFaulting m addr 4 _ refl) (
        check-IsSafeOr _ _ _ (check_range-IsFaulting m addr 4 _ refl) (
          check-IsSafeOr _ _ _ (check_mapped_from-IsFaulting m addr _ 4 0 refl) (
            and_then-IsSafe _ _ _ _
              (and_then-IsSafe _ _ _ _ (and_then-IsSafe _ _ _ _ (write_byte-IsSafe m addr _)))))))
