-- ===== src/Disposers.antt =====
-- The cleanup functions of a node: disposers.ts and operationDisposers.ts of
-- packages/core/src/graph/lifecycle.
pub mod Registry
pub mod Drain
pub mod Bag
