-- ===== src/DCache/Trace.antt =====
-- The access trace: src/component/dcache/dcache_stats.cpp and
-- include/risc-e/component/dcache/dcache_stats.hpp.
use risc_e.Base.{ℕ, ◌+◌, List, [], ◌∷◌, ◌++◌, length, ltb, if◌then◌else◌}

pub data DCacheKind : Type 0 where
  load store fetch : DCacheKind

pub record DCacheRecord : Type 0 where
  pub addr : ℕ
  pub size : ℕ
  pub kind : DCacheKind

abbrev pub max_records : ℕ
max_records = 1000000

pub record DCacheStats : Type 0 where
  pub loads : ℕ
  pub stores : ℕ
  pub records : List DCacheRecord

abbrev pub fresh : DCacheStats
fresh = record { loads = 0; stores = 0; records = [] }

unfoldable pub reset : DCacheStats → DCacheStats
reset s = record s { loads = 0; stores = 0; records = [] }

-- Anything but a load counts as a store.
abbrev pub counted : DCacheKind → DCacheStats → DCacheStats
counted DCacheKind.load s = record s { loads = s.loads + 1 }
counted DCacheKind.store s = record s { stores = s.stores + 1 }
counted DCacheKind.fetch s = record s { stores = s.stores + 1 }

-- DCacheStats::record.
unfoldable pub record_access : DCacheStats → DCacheKind → ℕ → ℕ → DCacheStats
record_access s kind addr size =
    let t = counted kind s in
    if ltb (length t.records) max_records
    then record t { records = t.records ++ record { addr = addr; size = size; kind = kind } ∷ [] }
    else t
