-- ===== src/Cli/Compose/Order.antt =====
-- `topological_sort`: every service once, and behind what it depends on where there is no cycle.
pub mod Count
pub mod Edges
pub mod Drained
pub mod Sorted
