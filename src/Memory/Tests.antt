-- ===== src/Memory/Tests.antt =====
-- Witnesses for the memory's theorems, on one page at 0x1000 with a trap sink.
use risc_e.Base.{◌≡◌, ◌≢◌, arith, none, []}
use risc_e.Cpu.Trap.{TrapCause}
use risc_e.Memory.{PhysicalMemory, empty, set_trap_sink, map_region, store32, load32}
use risc_e.Memory.Pages.{byte_at}
use risc_e.Memory.Region.{or_zero, covers, byte_at-map_region, map_region-IsBytes}
use risc_e.Memory.Access.{IsBytes}
use risc_e.Memory.Words.{expected_load, load32_lem}
use risc_e.Memory.Stores.{IsStored, store32_lem, load32-store32}

abbrev one_page : PhysicalMemory
one_page = map_region (set_trap_sink empty) 0x1000 0x100

empty-IsBytes : IsBytes (set_trap_sink empty)
unfolding empty set_trap_sink byte_at
empty-IsBytes a v e = ground arith

one_page-IsBytes : IsBytes one_page
one_page-IsBytes = map_region-IsBytes (set_trap_sink empty) 0x1000 0x100 (omega arith) empty-IsBytes

mapped : byte_at one_page 0x1010 ≢ none
unfolding empty set_trap_sink byte_at
mapped = ground (arith, byte_at-map_region (set_trap_sink empty) 0x1000 0x100 0x1010)

byte_at-map_region_example :
    byte_at one_page 0x1fff
    ≡ or_zero (byte_at (set_trap_sink empty) 0x1fff) (covers 0x1000 0x100 0x1fff)
byte_at-map_region_example =
    byte_at-map_region (set_trap_sink empty) 0x1000 0x100 0x1fff (omega arith)

load32_lem_example :
    load32 one_page 0x1010
    ≡ expected_load one_page 0x1010 4 TrapCause.load_misaligned TrapCause.load_fault
load32_lem_example = load32_lem one_page 0x1010 (omega arith) one_page-IsBytes

store32_lem_example :
    IsStored 0x1010 (omega arith) one_page 4 0xdeadbeef (store32 one_page 0x1010 0xdeadbeef)
store32_lem_example = store32_lem 0x1010 (omega arith) one_page 0xdeadbeef

load32-store32_example :
    (load32 (store32 one_page 0x1010 0xdeadbeef).0 0x1010 ≡ (0xdeadbeef, []))
    × ((store32 one_page 0x1010 0xdeadbeef).1 ≡ [])
load32-store32_example =
    load32-store32 0x1010 (omega arith) one_page 0xdeadbeef one_page-IsBytes (omega arith) mapped
      (omega arith)
