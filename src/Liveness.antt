-- ===== src/Liveness.antt =====
-- packages/core/src/graph/liveness/index.ts: the leases on a node, and the live resource that the
-- demand of the leases keeps running.
pub mod Leases
pub mod Changes
pub mod Delivery
pub mod Handlers
