-- ===== src/Types/Operations.antt =====
-- packages/core/src/graph/types/operations.ts and reads.ts: operations on a node, and its status.
use frond.Shared.{ℕ, String, Option}
use frond.Shared.Int.{ℤ}
use frond.Types.Value.{Value}

pub data NodeOperationKind : Type 0 where
  action refresh args : NodeOperationKind

-- The `Running` case of `NodeOperation`.
pub record RunningOperation : Type 0 where
  pub operation_id : ℕ
  pub kind : NodeOperationKind
  pub started_at : ℤ
  pub action_name : Option String

pub data NodeOperation : Type 0 where
  idle : NodeOperation
  running : RunningOperation → NodeOperation

pub record NodeOperationFailure : Type 0 where
  pub operation_id : ℕ
  pub kind : NodeOperationKind
  pub error : Value
  pub at : ℤ

pub data NodeRunState : Type 0 where
  idle ready : NodeRunState
  pending : ℕ → NodeRunState
  error : Value → NodeRunState

pub data NodeStatus : Type 0 where
  unwired : NodeStatus
  invalid : Value → NodeStatus
  wired : NodeRunState → NodeStatus

pub data NodeObjectLookup : Type 0 where
  found : Value → NodeObjectLookup
  missing : NodeObjectLookup

pub data EvictMode : Type 0 where
  dependents self_and_dependents : EvictMode
