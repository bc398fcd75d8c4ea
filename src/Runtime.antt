-- ===== src/Runtime.antt =====
-- The buses of a runtime: packages/core/src/runtime.
pub mod Limits
pub mod Events
pub mod Policies
pub mod Signals
pub mod Coordinator
