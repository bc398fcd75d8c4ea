-- ===== src/Eviction.antt =====
-- packages/core/src/graph/lifecycle/eviction.ts: which nodes an eviction takes, in which order, and
-- what it leaves of the graph.
pub mod Closure
pub mod Order
pub mod Evict
