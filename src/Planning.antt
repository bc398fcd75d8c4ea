-- ===== src/Planning.antt =====
-- packages/core/src/graph/planning: which specs a request stands for.
pub mod Descriptor
pub mod Overrides
