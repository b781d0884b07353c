-- ===== src/Cli.antt =====
-- The command line: src/main.cpp.
-- A text is the list of its bytes. What is printed on an error is the error value.
mod Tests
pub mod Overrides
pub mod Json
pub mod Comparison
pub mod Listing
pub mod Options
pub mod Selection
