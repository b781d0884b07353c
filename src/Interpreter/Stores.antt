-- ===== src/Interpreter/Stores.antt =====
-- execute_store of src/interpreter/interpreter.cpp on every encoding, aligned or not, mapped or not.
use risc_e.Base.{
  ℕ, ◌%◌, ◌^◌, ◌<◌, ◌≡◌, refl, arith, Bool, true, false, not, Option, none, some, List, [], ◌∷◌,
  ◌==◌, if◌then◌else◌, Bool-cases, Option-cases, inl, inr, ◌∙◌, ap, sym,
}
use risc_e.Base.Word.{add32, u8}
use risc_e.Cpu.Trap.{TrapCause, Trap}
use risc_e.Decoder.{DecodedInstruction}
use risc_e.Memory.{PhysicalMemory, store8, store16, store32}
use risc_e.Memory.Pages.{byte_at, byte_at-store8, traps-store8}
use risc_e.Memory.Faults.{raise_fault-sink}
use risc_e.Memory.Stores.{IsStored, can_store, overlay, expected_traps, store16_lem, store32_lem}
use risc_e.Predictor.{BranchPredictor}
use risc_e.DCache.Trace.{DCacheKind, record_access}
use risc_e.Interpreter.Machine.{Interpreter, raise_fault_trap, halt_on_trap, deliver}
use risc_e.Interpreter.Execute.{
  store_value, store_size, advance, illegal, finish_store, execute_store,
}
use risc_e.Interpreter.Invariant.{IsWellFormed}

pub data StoreKind : Type 0 where
  sb sh sw : StoreKind

abbrev pub store_funct3 : StoreKind → ℕ
store_funct3 sb = 0
store_funct3 sh = 1
store_funct3 sw = 2

abbrev pub store_width : StoreKind → ℕ
store_width sb = 1
store_width sh = 2
store_width sw = 4

-- The part of the register that is stored.
abbrev pub low_bytes : StoreKind → ℕ → ℕ
low_bytes sb v = u8 v
low_bytes sh v = v % 2 ^ 16
low_bytes sw v = v

written : PhysicalMemory → StoreKind → ℕ → ℕ → PhysicalMemory × List Trap
written m sb a v = store8 m a (u8 v)
written m sh a v = store16 m a (v % 2 ^ 16)
written m sw a v = store32 m a v

store_value-written :
    (m : PhysicalMemory) (k : StoreKind) (a v : ℕ)
    → store_value m (store_funct3 k) a v ≡ some (written m k a v)
unfolding store_value written
store_value-written m sb a v = refl
store_value-written m sh a v = refl
store_value-written m sw a v = refl

module _ (m : PhysicalMemory) (a : ℕ) (bound : a < 2 ^ 32) where
  store8-IsStored : (v : ℕ) → v < 2 ^ 8 → IsStored a bound m 1 v (store8 m a v)
  store8-IsStored v small =
      (λ b. ground (arith, byte_at-store8 m a v b), ground (arith, traps-store8 m a v))

  written-IsStored :
      (k : StoreKind) (v : ℕ) → IsStored a bound m (store_width k) (low_bytes k v) (written m k a v)
  unfolding written
  written-IsStored sb v = store8-IsStored (u8 v) (omega arith)
  written-IsStored sh v = store16_lem a bound m (v % 2 ^ 16)
  written-IsStored sw v = store32_lem a bound m v

-- The one trap of a store that cannot be done.
abbrev pub store_trap : ℕ → ℕ → Trap
store_trap a n = record {
  cause = if a % n == 0 then TrapCause.store_fault else TrapCause.store_misaligned;
  value = a;
}

traps-can_store :
    (m : PhysicalMemory) (a n : ℕ) (bound : a < 2 ^ 32)
    → m.has_sink ≡ true
    → expected_traps m a n ≡ (if can_store a bound m n then [] else store_trap a n ∷ [])
traps-can_store m a n bound sink = elim (Bool-cases (a % n == 0)) [
  | inl aligned ↦ elim (Option-cases (byte_at m a)) [
    | inl e ↦ rw (aligned, e) (raise_fault-sink m TrapCause.store_fault a sink)
    | inr (v, e) ↦ rw (aligned, e)
  ]
  | inr odd ↦ rw odd (raise_fault-sink m TrapCause.store_misaligned a sink)
]

store_size-width : (k : StoreKind) → store_size (store_funct3 k) ≡ store_width k
store_size-width sb = refl
store_size-width sh = refl
store_size-width sw = refl

module _ {p : BranchPredictor} where
  -- The state after a store that leaves the memory `m`: the trace and the program counter move on
  -- success, and the trap is taken on a fault.
  abbrev pub store_outcome : StoreKind → Bool → Interpreter p → ℕ → PhysicalMemory → Interpreter p
  store_outcome k success i a m =
      if success
      then advance (record i {
        mem = m;
        access_trace = record_access i.access_trace DCacheKind.store a (store_width k);
      })
      else raise_fault_trap (record i { mem = m }) (store_trap a (store_width k))

  finish-expected :
      (k : StoreKind) (success : Bool) (i : Interpreter p) (d : DecodedInstruction) (a : ℕ)
      (m : PhysicalMemory)
      → i.cpu.running ≡ true
      → d.funct3 ≡ store_funct3 k
      → finish_store
          (deliver
            (record i { mem = m })
            (if success then [] else store_trap a (store_width k) ∷ []))
          d
          a
        ≡ store_outcome k success i a m
  unfolding finish_store deliver
  finish-expected k true i d a m running e =
      ap (λ b. if not b then j else advance (traced (store_size d.funct3))) running
      ∙ ap (λ n. advance (traced n)) (ap store_size e ∙ store_size-width k)
    where
      j : Interpreter p
      j = record i { mem = m }

      traced : ℕ → Interpreter p
      traced n = record i {
        mem = m;
        access_trace = record_access i.access_trace DCacheKind.store a n;
      }
  finish-expected k false i d a m running e = unfold raise_fault_trap halt_on_trap in refl

  -- Each of the three stores on a well-formed running machine: it writes the low bytes of rs2, in
  -- little-endian order, at the address and at no other, records the access and goes on, if the
  -- address is aligned and mapped; otherwise every byte stays as it was and the machine halts with
  -- the trap for the address, the registers and the program counter as they were.
  pub execute_store-outcome :
      (k : StoreKind) (i : Interpreter p) (d : DecodedInstruction) (a : ℕ) (bound : a < 2 ^ 32)
      → IsWellFormed i
      → i.cpu.running ≡ true
      → d.funct3 ≡ store_funct3 k
      → a ≡ add32 (i.cpu.x d.rs1) d.imm
      → let success = can_store a bound i.mem (store_width k) in
        (m : PhysicalMemory) × (execute_store i d ≡ store_outcome k success i a m)
        × ((b : ℕ)
            → byte_at m b ≡ (
                if success
                then overlay a bound (store_width k) (low_bytes k (i.cpu.x d.rs2)) (byte_at i.mem) b
                else byte_at i.mem b))
  unfolding execute_store
  execute_store-outcome k i d a bound h running e address =
      let v = i.cpu.x d.rs2 in
      let stored = written-IsStored i.mem a bound k v in
      let m = (written i.mem k a v).0 in
      (
        m,
        ap (λ b. after b (store_value i.mem d.funct3 b v)) (sym address)
            ∙ ap (after a) (ap (λ f. store_value i.mem f a v) e ∙ store_value-written i.mem k a v)
            ∙ ap (λ ts. finish_store (deliver (record i { mem = m }) ts) d a)
                (stored.1 ∙ traps-can_store i.mem a (store_width k) bound h.mem.sink)
            ∙ finish-expected k (can_store a bound i.mem (store_width k)) i d a m running e,
        stored.0,
      )
    where
      after : ℕ → Option (PhysicalMemory × List Trap) → Interpreter p
      after b r = elim r [
        | none ↦ finish_store (illegal i d) d b
        | some r ↦ finish_store (deliver (record i { mem = r.0 }) r.1) d b
      ]
