-- ===== src/Validity.antt =====
-- packages/core/src/graph/resultValidity/index.ts: validity policies, the validity of a result as
-- time passes, and the commit of a driver's result.
pub mod Result
pub mod Policy
pub mod Effective
pub mod Commit
