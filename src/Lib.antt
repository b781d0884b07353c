-- ===== src/Lib.antt =====
-- Verification of RISC-E, an RV32I interpreter that feeds simulated branch predictors, caches and
-- a pipeline model.
--
-- The program loads an ELF image into paged memory, and the interpreter steps through it: fetch,
-- decode, profile, execute. A memory operation that fails calls the trap sink, which is the
-- interpreter. Each control transfer goes to the attached predictor and the control-flow statistics,
-- each basic block to the execution profile, and each load and store to the access trace; the cache,
-- predictor and pipeline components work on these records after the run. The command line chooses the
-- components by name from the registry, applies the --param overrides to them, and lists, compares or
-- reports them.
--
-- The files, and the code that each is about (paths from the repository's root):
--   Base: shared names, lists and words over the native numbers, bitwise operations, integers, and
--     text as the list of its bytes with std::to_string and std::hex.
--   Decoder: src/decoder/decoder.cpp and include/risc-e/decoder/. decode_raw_inst, the immediate
--     layouts and the opcode table keep their names; Decoder/Encode is an independent encoder.
--   Cpu: include/risc-e/cpu/. CPUState is CpuState, a call of TrapSink::raise_trap is a Trap.
--   Memory: src/memory/physical_memory.cpp. One function for each member; a load returns its value
--     and the calls of the sink, a store the memory and the calls. Memory/Pages has the abstract view,
--     the partial map from addresses to bytes.
--   Interpreter: src/interpreter/interpreter.cpp. Machine has the state, the traps and the system
--     calls, Alu the operations on operands, Execute the execute_* functions, Run the constructor,
--     reset, step and run; the other children are proofs.
--   Predictor: include/risc-e/component/predictor/ and src/component/predictor/. Stack is
--     ReturnAddressStack, Context and Counter and Calls the shared parts of branch_predictor.hpp,
--     Designs the five predictors, Stats branch_stats.cpp.
--   ICache: Profile is src/component/icache/icache_stats.cpp, Cache the simulation of icache.cpp.
--   DCache: Trace is src/component/dcache/dcache_stats.cpp, Replacement replacement.cpp, Cache the
--     simulation of dcache.cpp, and Hierarchy the two levels of implementations/l1l2_cache.cpp.
--   Elf: src/elf/loader.cpp over the bytes of a file. Pipeline: src/component/pipeline/pipeline.cpp.
--   Component: include/risc-e/component/component.hpp, src/component/component.cpp and registry.cpp.
--     Values is parse_parameter_value over a model of std::stol, Escape json_escape, Designs the
--     classes of components, Registry the registry, Configure set_parameter, Specs parameters and Costs
--     cycle_cost and reset of every class; a virtual call is a function by clauses on the class.
--   Disasm: src/disasm/disasm.cpp. Instruction is disassemble_instruction, Blocks build_block_table.
--   Cli: src/main.cpp. Options is the argument loop, Overrides validate_overrides and apply_overrides,
--     Selection the choice of the components, Listing --list, Comparison build_comparison_rows, and
--     Json pretty_json. A function that prints gives its text.
--
-- Numbers: a 32-bit word is a natural number below 2 ^ 32 and every wrap-around is written out; an
-- int32_t is its bit pattern. The 64-bit event counters are unbounded, since they grow by one at a
-- time, for each event that they count; the cycle counts of the caches and the pipeline, whose
-- penalties have no upper bound, are written modulo 2 ^ 64, and a difference of two of them as int64_t
-- is taken to wrap. Maps are functions of their key.
-- Fuel: the loop of run has fuel and gives `none` when it runs out; any fuel that reaches a halted
-- machine is enough. The walks down a replacement tree have the number of ways as fuel, and each step at
-- least doubles the node. std::to_string and std::hex have one more than the number as fuel, and each
-- digit divides it. Every other loop is structural.
-- The trap sink: a call that a memory operation makes is carried out by `deliver`, which is
-- raise_trap for the causes that the memory reports.
--
-- An error of the command line is a value: a function that fills `error` and returns false gives the
-- failing case of a Result, and what main reports before it returns 1 is a UsageError, a Problem or a
-- case of Selection. A null pointer and a call of back() on an empty vector are `none`.
--
-- Not modelled: reading, compiling and writing files in src/main.cpp, the walk of print_disassembly over
-- the segments, the text and JSON reports of the components with their floating-point ratios, and what
-- a table of a size near the memory's would do to the allocator. Move constructors only hand members
-- over.
pub mod Base
pub mod Decoder
pub mod Cpu
pub mod Component
pub mod Cli
pub mod Disasm
pub mod Memory
pub mod Predictor
pub mod ICache
pub mod DCache
pub mod Elf
pub mod Pipeline
pub mod Interpreter
