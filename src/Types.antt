-- ===== src/Types.antt =====
-- packages/core/src/graph/types: the data that the parts of the graph share.
pub mod Value
pub mod Validity
pub mod Live
pub mod Operations
