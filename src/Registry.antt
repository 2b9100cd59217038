-- ===== src/Registry.antt =====
-- The registry client: crates/registry.
pub mod Reference
mod Tests
