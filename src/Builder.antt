-- ===== src/Builder.antt =====
-- The image builder: crates/builder. What it takes from libraries is a record of parameters.
pub mod Given
pub mod Expand
pub mod Scope
pub mod Parser
mod Tests
