-- ===== src/Util.antt =====
-- crates/util: ignore files, resource names, confined paths and random names.
pub mod Ignore
pub mod ResourceName
pub mod RandomName
pub mod FilePath
pub mod Digest
mod Tests
