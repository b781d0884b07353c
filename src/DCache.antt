-- ===== src/DCache.antt =====
-- The data-cache component: src/component/dcache/.
pub mod Trace
pub mod Replacement
pub mod Cache
pub mod Hierarchy
pub mod Tests
