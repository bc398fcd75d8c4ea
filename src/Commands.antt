-- ===== src/Commands.antt =====
-- The commands of the graph system: packages/core/src/graph/system.
pub mod Refresh
