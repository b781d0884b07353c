-- ===== src/ICache.antt =====
-- The instruction-cache component: src/component/icache/.
pub mod Profile
pub mod Tests
pub mod Cache
