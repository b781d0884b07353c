-- ===== src/Interpreter/Invariant.antt =====
-- The well-formedness of an interpreter, through its traps and system calls: raise_trap and
-- handle_trap of src/interpreter/interpreter.cpp.
pub mod Execute
pub mod Run
pub mod Boot
use risc_e.Base.{
  ℕ, zero, suc, ◌+◌, ◌-◌, ◌%◌, ◌^◌, ◌≤◌, ◌<◌, ◌≡◌, ◌≢◌, refl, arith, Bool, true, false, Option,
  none, some, List, [], ◌∷◌, ◌++◌, ltb, ◌==◌, ◌||◌, if◌then◌else◌, update, if-cases, Bool-cases,
  inl, inr, ◌∙◌,
}
use risc_e.Base.Word.{add32}
use risc_e.Cpu.Trap.{TrapCause, Trap, code}
use risc_e.Cpu.State.{CpuState, HaltReason}
use risc_e.Memory.{PhysicalMemory, load8, map_region}
use risc_e.Memory.Access.{IsBytes}
use risc_e.Memory.Region.{map_region-IsBytes}
use risc_e.Memory.Ranges.{load8-lt, map_region-has_sink}
use risc_e.Predictor.{BranchPredictor}
use risc_e.Interpreter.Machine.{
  Interpreter, stack_bottom, write_register, enter_trap, halt_on_trap, raise_fault_trap, raise_trap,
  handle_trap, deliver, return_to_program, write_loop, syscall_write, syscall_exit, syscall_brk,
  environment_call,
}

-- Register 0 holds 0, and every register and address is a 32-bit word.
pub record IsCpu (c : CpuState) : Type 0 where
  pub zero_register : c.x 0 ≡ 0
  pub registers : (r : ℕ) → c.x r < 2 ^ 32
  pub pc : c.pc < 2 ^ 32
  pub mepc : c.mepc < 2 ^ 32

-- The memory holds bytes and reports its faults.
pub record IsMemory (m : PhysicalMemory) : Type 0 where
  pub bytes : IsBytes m
  pub sink : m.has_sink ≡ true

pub record IsWellFormed {p : BranchPredictor} (i : Interpreter p) : Type 0 where
  pub cpu : IsCpu i.cpu
  pub mem : IsMemory i.mem
  pub heap : i.heap_break < 2 ^ 32

pub update-IsCpu :
    (c : CpuState) (r v : ℕ)
    → IsCpu c
    → r ≢ 0
    → v < 2 ^ 32
    → IsCpu (record c { x = update c.x r v })
update-IsCpu c r v h nonzero bound = record {
  zero_register = ground (arith, h.zero_register);
  registers = λ s. ground (arith, h.registers s);
  pc = h.pc;
  mepc = h.mepc;
}

pub write_register-IsCpu :
    (c : CpuState) (r v : ℕ) → IsCpu c → v < 2 ^ 32 → IsCpu (write_register c r v)
unfolding write_register
write_register-IsCpu c r v h bound = elim (Bool-cases (r == 0)) [
  | inl e ↦ rw e h
  | inr e ↦ rw e (update-IsCpu c r v h (ground arith) bound)
]

pub jump-IsCpu :
    (c : CpuState) (target : ℕ) → IsCpu c → target < 2 ^ 32 → IsCpu (record c { pc = target })
jump-IsCpu c target h bound = record {
  zero_register = h.zero_register;
  registers = h.registers;
  pc = bound;
  mepc = h.mepc;
}

pub map_region-IsMemory :
    (m : PhysicalMemory) (addr size : ℕ)
    → addr < 2 ^ 32
    → IsMemory m
    → IsMemory (map_region m addr size)
map_region-IsMemory m addr size bound h = record {
  bytes = map_region-IsBytes m addr size bound h.bytes;
  sink = map_region-has_sink m addr size ∙ h.sink;
}

module _ {p : BranchPredictor} where
  enter_trap-IsWellFormed :
      (i : Interpreter p) (cause : TrapCause) (value : ℕ)
      → IsWellFormed i
      → IsWellFormed (enter_trap i cause value)
  unfolding enter_trap
  enter_trap-IsWellFormed i cause value h = record {
    cpu = record {
      zero_register = h.cpu.zero_register;
      registers = h.cpu.registers;
      pc = h.cpu.pc;
      mepc = h.cpu.pc;
    };
    mem = h.mem;
    heap = h.heap;
  }

  halt_on_trap-IsWellFormed : (i : Interpreter p) → IsWellFormed i → IsWellFormed (halt_on_trap i)
  unfolding halt_on_trap
  halt_on_trap-IsWellFormed i h = record {
    cpu = record {
      zero_register = h.cpu.zero_register;
      registers = h.cpu.registers;
      pc = h.cpu.pc;
      mepc = h.cpu.mepc;
    };
    mem = h.mem;
    heap = h.heap;
  }

  pub deliver-IsWellFormed :
      (i : Interpreter p) (ts : List Trap) → IsWellFormed i → IsWellFormed (deliver i ts)
  unfolding deliver raise_fault_trap
  deliver-IsWellFormed i [] h = h
  deliver-IsWellFormed i (t ∷ ts) h =
      deliver-IsWellFormed (raise_fault_trap i t) ts
        (halt_on_trap-IsWellFormed _ (enter_trap-IsWellFormed i t.cause t.value h))

  return_to_program-IsWellFormed :
      (i : Interpreter p) (value : ℕ)
      → value < 2 ^ 32
      → IsWellFormed i
      → IsWellFormed (return_to_program i value)
  unfolding return_to_program
  return_to_program-IsWellFormed i value bound h = record {
    cpu = jump-IsCpu _ _ (update-IsCpu i.cpu 10 value h.cpu (omega arith) bound) (omega arith);
    mem = h.mem;
    heap = h.heap;
  }

  write_loop-IsWellFormed :
      (buf left k : ℕ) (i : Interpreter p) → IsWellFormed i → IsWellFormed (write_loop buf left k i)
  unfolding write_loop
  write_loop-IsWellFormed buf zero k i h = h
  write_loop-IsWellFormed buf (suc left) k i h =
      let byte = load8 i.mem (add32 buf k) in
      let j = deliver i byte.1 in
      let hj = deliver-IsWellFormed i byte.1 h in
      let next = record j { program_output = j.program_output ++ byte.0 ∷ [] } in
      elim j.cpu.running
        as (λ running.
          IsWellFormed (elim running [ false ↦ j | true ↦ write_loop buf left (k + 1) next ])) [
            | false ↦ hj
            | true ↦
                write_loop-IsWellFormed buf left (k + 1) next
                  (record { cpu = hj.cpu; mem = hj.mem; heap = hj.heap })
          ]

  syscall_write-IsWellFormed : (i : Interpreter p) → IsWellFormed i → IsWellFormed (syscall_write i)
  unfolding syscall_write
  syscall_write-IsWellFormed i h =
      let j = write_loop (i.cpu.x 11) (i.cpu.x 12) 0 i in
      let hj : IsWellFormed j = write_loop-IsWellFormed _ _ 0 i h in
      if-cases IsWellFormed (i.cpu.x 10 == 1 || i.cpu.x 10 == 2) _ _
        (λ _.
          if-cases IsWellFormed j.cpu.running _ _
            (λ _. return_to_program-IsWellFormed j _ (h.cpu.registers 12) hj) (λ _. hj))
        (λ _. return_to_program-IsWellFormed i _ (omega arith) h)

  syscall_exit-IsWellFormed : (i : Interpreter p) → IsWellFormed i → IsWellFormed (syscall_exit i)
  unfolding syscall_exit
  syscall_exit-IsWellFormed i h = record {
    cpu = record {
      zero_register = h.cpu.zero_register;
      registers = h.cpu.registers;
      pc = omega arith;
      mepc = h.cpu.mepc;
    };
    mem = h.mem;
    heap = h.heap;
  }

  syscall_brk-IsWellFormed : (i : Interpreter p) → IsWellFormed i → IsWellFormed (syscall_brk i)
  unfolding syscall_brk
  syscall_brk-IsWellFormed i h =
      let requested = i.cpu.x 10 in
      elim (Bool-cases
        (requested == 0 || ltb requested i.heap_break || ltb stack_bottom requested)) [
          | inl e ↦ rw e (return_to_program-IsWellFormed i _ h.heap h)
          | inr e ↦ elim (Bool-cases (ltb i.heap_break requested)) [
            | inl f ↦
                rw (e, f)
                  (return_to_program-IsWellFormed _ _ (h.cpu.registers 10) (record {
                    cpu = h.cpu;
                    mem = map_region-IsMemory i.mem i.heap_break _ h.heap h.mem;
                    heap = h.cpu.registers 10;
                  }))
            | inr f ↦ rw (e, f) (return_to_program-IsWellFormed i _ h.heap h)
          ]
        ]

  environment_call-IsWellFormed :
      (i : Interpreter p) → IsWellFormed i → IsWellFormed (environment_call i)
  unfolding environment_call
  environment_call-IsWellFormed i h = elim (Bool-cases (i.cpu.x 17 == 64)) [
    | inl e ↦ rw e (syscall_write-IsWellFormed i h)
    | inr e ↦ elim (Bool-cases (i.cpu.x 17 == 93)) [
      | inl f ↦ rw (e, f) (syscall_exit-IsWellFormed i h)
      | inr f ↦ elim (Bool-cases (i.cpu.x 17 == 214)) [
        | inl g ↦ rw (e, f, g) (syscall_brk-IsWellFormed i h)
        | inr g ↦ rw (e, f, g) (return_to_program-IsWellFormed i _ (omega arith) h)
      ]
    ]
  ]

  pub raise_trap-IsWellFormed :
      (i : Interpreter p) (cause : TrapCause) (value : ℕ)
      → IsWellFormed i
      → IsWellFormed (raise_trap i cause value)
  unfolding raise_trap handle_trap
  raise_trap-IsWellFormed i cause value h =
      let j = enter_trap i cause value in
      let hj = enter_trap-IsWellFormed i cause value h in
      elim (Bool-cases (j.cpu.mcause == 11)) [
        | inl e ↦ rw e (environment_call-IsWellFormed j hj)
        | inr e ↦ rw e (halt_on_trap-IsWellFormed j hj)
      ]
