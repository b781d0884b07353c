-- ===== src/Component.antt =====
-- The interface of the configurable parts: include/risc-e/component/component.hpp,
-- src/component/component.cpp and src/component/registry.cpp.
-- A text is the list of its bytes. An `error` parameter that is filled on failure is the failing case
-- of a Result.
mod Tests
pub mod Values
pub mod Escape
pub mod Designs
pub mod Configure
pub mod Registry
pub mod Costs
pub mod Specs
