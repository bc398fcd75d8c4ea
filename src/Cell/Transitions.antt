-- ===== src/Cell/Transitions.antt =====
-- packages/core/src/graph/cell/cellTransitions.ts: the named changes of a cell's state, and the
-- versioned slot of cellState.ts that holds it.
use frond.Shared.{
  ℕ, ◌+◌, String, Bool, ◌==◌, nat_eq, Option, none, some, List, [], ◌∷◌, ◌++◌, if◌then◌else◌,
}
use frond.Types.Value.{Value}
use frond.Types.Validity.{ResultValidity, NormalizedResultValidityPolicy}
use frond.Types.Live.{GraphFailure}
use frond.Types.Operations.{RunningOperation, NodeOperationFailure}
use frond.Disposers.Registry.{Disposer, DisposerRegistry}
use frond.Validity.Commit.{ResultState}
use frond.Cell.Phase.{
  CellReadinessAttempt, CellBase, ReadyData, LiveResourceState, CellPhase, idle, acquiring,
  readiness_error, ready, operating, invalid, CellPhaseBaseLookup, phase_base, phase_live_leases,
  map_phase_ready,
}

pub record GraphNodeState : Type 0 where
  pub next_operation_id : ℕ
  pub next_attempt_id : ℕ
  pub next_live_generation : ℕ
  pub phase : CellPhase

unfoldable pub begin_readiness_attempt_state :
    GraphNodeState → ℕ → CellBase → CellReadinessAttempt → GraphNodeState
begin_readiness_attempt_state latest attempt_id base attempt = record latest {
  next_attempt_id = attempt_id;
  phase = acquiring base attempt;
}

base_with_result_validity : CellBase → Option ResultValidity → CellBase
base_with_result_validity base none = base
base_with_result_validity base (some v) = record base { result_validity = some v }

failed_attempt_phase : CellPhase → Value → Option ResultValidity → CellPhase
unfolding base_with_result_validity
failed_attempt_phase (acquiring base attempt) cause v =
    readiness_error (base_with_result_validity base v) cause
failed_attempt_phase phase cause v = phase

unfoldable pub fail_readiness_attempt_state :
    GraphNodeState → Value → Option ResultValidity → GraphNodeState
unfolding failed_attempt_phase
fail_readiness_attempt_state latest cause v = record latest {
  phase = failed_attempt_phase latest.phase cause v;
}

-- What an acquire hands over to the cell.
pub record AcquiredReady : Type 0 where
  pub node : Value
  pub args : Value
  pub deps : List (String × Value)
  pub result_state : ResultState
  pub result_validity_policy : NormalizedResultValidityPolicy
  pub disposers : DisposerRegistry
  pub node_lifetime : Value

pub data AcquireCompletion : Type 0 where
  committed stale : GraphNodeState → AcquireCompletion

acquired_ready_data : CellPhase → AcquiredReady → ReadyData
acquired_ready_data phase r = record {
  node = r.node;
  args = r.args;
  live_leases = phase_live_leases phase;
  live_failure = none;
  deps = r.deps;
  result = r.result_state.result;
  result_validity = r.result_state.result_validity;
  result_loaded_at = r.result_state.result_loaded_at;
  result_validity_policy = r.result_validity_policy;
  disposers = r.disposers;
  live_resource = LiveResourceState.inactive;
  node_lifetime = r.node_lifetime;
}

-- Is the phase the acquiring of this very attempt?
unfoldable pub is_current_attempt : CellPhase → CellReadinessAttempt → Bool
is_current_attempt (acquiring base current) attempt = current.attempt_id == attempt.attempt_id
is_current_attempt phase attempt = Bool.false

unfoldable pub complete_acquire_state :
    GraphNodeState → CellReadinessAttempt → AcquiredReady → AcquireCompletion
unfolding is_current_attempt acquired_ready_data phase_live_leases
complete_acquire_state latest attempt r =
    if is_current_attempt latest.phase attempt
    then committed (record latest { phase = ready (acquired_ready_data latest.phase r) none })
    else stale latest

begun_phase : CellPhase → RunningOperation → CellPhase
begun_phase (ready r failure) operation = operating r operation
begun_phase phase operation = phase

unfoldable pub begin_node_operation_state : GraphNodeState → RunningOperation → GraphNodeState
unfolding begun_phase
begin_node_operation_state latest operation = record latest {
  next_operation_id = operation.operation_id + 1;
  phase = begun_phase latest.phase operation;
}

-- The phase after an operation ends, with its failure if it failed. A late end of an operation
-- that is not the running one changes nothing.
ended_phase : CellPhase → RunningOperation → Option NodeOperationFailure → CellPhase
ended_phase (operating r current) operation failure =
    if current.operation_id == operation.operation_id then ready r failure else operating r current
ended_phase phase operation failure = phase

unfoldable pub complete_node_operation_state : GraphNodeState → RunningOperation → GraphNodeState
unfolding ended_phase
complete_node_operation_state latest operation = record latest {
  phase = ended_phase latest.phase operation none;
}

unfoldable pub fail_node_operation_state :
    GraphNodeState → RunningOperation → NodeOperationFailure → GraphNodeState
unfolding ended_phase
fail_node_operation_state latest operation failure = record latest {
  phase = ended_phase latest.phase operation (some failure);
}

-- `current.append(appended)`: the registry is the same object before and after.
append_ready_disposers : DisposerRegistry → List Disposer → DisposerRegistry
append_ready_disposers current appended = record current { list = current.list ++ appended }

unfoldable pub commit_ready_operation_state :
    GraphNodeState → List (String × Value) → ResultState → List Disposer → GraphNodeState
unfolding append_ready_disposers map_phase_ready
commit_ready_operation_state latest deps result_state operation_disposers = record latest {
  phase = map_phase_ready latest.phase λ r. record r {
    deps = deps;
    result = result_state.result;
    result_validity = result_state.result_validity;
    result_loaded_at = result_state.result_loaded_at;
    disposers = append_ready_disposers r.disposers operation_disposers;
  };
}

unfoldable pub append_ready_disposers_state : GraphNodeState → List Disposer → GraphNodeState
unfolding append_ready_disposers map_phase_ready
append_ready_disposers_state latest operation_disposers = record latest {
  phase =
      map_phase_ready latest.phase
        λ r. record r { disposers = append_ready_disposers r.disposers operation_disposers };
}

-- `cleanupFailures[0]`.
first_failure : List GraphFailure → Value
first_failure [] = Value.undefined
first_failure (f ∷ fs) = f

released_phase : CellPhase → Value → CellPhase
unfolding phase_base
released_phase phase failure = elim (phase_base phase) [
  | CellPhaseBaseLookup.found base ↦ idle base failure
  | CellPhaseBaseLookup.missing tag ↦ phase
]

unfoldable pub complete_release_state : GraphNodeState → List GraphFailure → GraphNodeState
unfolding released_phase first_failure
complete_release_state latest cleanup_failures = record latest {
  phase = released_phase latest.phase (first_failure cleanup_failures);
}

invalid_phase : CellPhase → Value → CellPhase
unfolding phase_base
invalid_phase phase failure = elim (phase_base phase) [
  | CellPhaseBaseLookup.found base ↦ invalid failure (some base)
  | CellPhaseBaseLookup.missing tag ↦ invalid failure none
]

unfoldable pub mark_invalid_state : GraphNodeState → Value → GraphNodeState
unfolding invalid_phase
mark_invalid_state latest failure = record latest { phase = invalid_phase latest.phase failure }

-- makeGraphCellState: the current state and its revision, which each write raises.
pub record GraphCellState (S : Type 0) : Type 0 where
  pub current : S
  pub revision : ℕ

module _ {S : Type 0} where
  unfoldable pub make_graph_cell_state : S → ℕ → GraphCellState S
  make_graph_cell_state initial initial_revision = record {
    current = initial;
    revision = initial_revision;
  }

  unfoldable pub replace : GraphCellState S → S → GraphCellState S
  replace cell next = record { current = next; revision = cell.revision + 1 }

  unfoldable pub transition : {A : Type 0} → GraphCellState S → (S → A × S) → A × GraphCellState S
  transition cell f =
      let (value, next) = f cell.current in
      (value, record { current = next; revision = cell.revision + 1 })
