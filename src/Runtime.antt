-- ===== src/Runtime.antt =====
-- The container runtime: crates/runtime.
pub mod Options
pub mod Stdio
mod Tests
