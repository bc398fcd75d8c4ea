-- ===== src/Cell.antt =====
-- packages/core/src/graph/cell: the state of one node of the graph.
pub mod Phase
pub mod Demand
pub mod Projection
pub mod Transitions
pub mod Steps
pub mod Bases
pub mod Settled
