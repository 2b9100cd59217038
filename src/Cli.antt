-- ===== src/Cli.antt =====
-- crates/ingot-cli: the command line client.
pub mod Compose
