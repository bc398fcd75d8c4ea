-- ===== src/Scenarios/Cells.antt =====
-- A cell that acquires, operates and fails, and leases on it.
use frond.Shared.{String, ◌≡◌, refl, inr, true, false, none, some, List, [], ◌∷◌, has, arith}
use frond.Shared.Int.{ℤ, pos}
use frond.Types.Value.{object, text}
use frond.Types.Validity.{ResultValidity, NormalizedResultValidityPolicy}
use frond.Types.Live.{mobx, manual}
use frond.Types.Operations.{NodeOperationKind, RunningOperation, NodeOperationFailure}
use frond.Cell.Phase.{
  CellLiveLease, CellBase, ReadyData, LiveResourceState, CellPhase, CellReadinessAttempt,
}
use frond.Cell.Demand.{project_live_demand, project_live_demand_lem}
use frond.Cell.Transitions.{
  GraphNodeState, AcquiredReady, AcquireCompletion, complete_acquire_state,
  complete_node_operation_state, fail_node_operation_state, begin_node_operation_state,
  begin_readiness_attempt_state, is_current_attempt,
}
use frond.Validity.Commit.{CommitKind}
use frond.Cell.Steps.{Reach, CellStep}
use frond.Cell.Settled.{settled_once, late_acquire_stale}

abbrev ready_data : ReadyData
ready_data = record {
  args = text "args";
  live_leases = [];
  live_failure = none;
  node = object 1;
  deps = [];
  result = text "result";
  result_validity = ResultValidity.current (some (pos 5));
  result_loaded_at = some (pos 5);
  result_validity_policy = NormalizedResultValidityPolicy.static;
  disposers = record { list = []; invoked = []; settled = false };
  live_resource = LiveResourceState.inactive;
  node_lifetime = object 2;
}

abbrev first_operation : RunningOperation
first_operation = record {
  operation_id = 1;
  kind = NodeOperationKind.refresh;
  started_at = pos 6;
  action_name = none;
}

abbrev second_operation : RunningOperation
second_operation = record {
  operation_id = 2;
  kind = NodeOperationKind.action;
  started_at = pos 8;
  action_name = some "save";
}

abbrev timed_out : NodeOperationFailure
timed_out = record {
  operation_id = 1;
  kind = NodeOperationKind.refresh;
  error = object 9;
  at = pos 7;
}

-- The first operation runs.
abbrev operating_cell : GraphNodeState
operating_cell = record {
  next_operation_id = 2;
  next_attempt_id = 1;
  next_live_generation = 1;
  phase = CellPhase.operating ready_data first_operation;
}

-- It has failed, and the second one runs.
abbrev moved_on : GraphNodeState
moved_on = record {
  next_operation_id = 3;
  next_attempt_id = 1;
  next_live_generation = 1;
  phase = CellPhase.operating ready_data second_operation;
}

moved_on-Reach : Reach (fail_node_operation_state operating_cell first_operation timed_out) moved_on
unfolding fail_node_operation_state begin_node_operation_state
moved_on-Reach = Reach.next Reach.here (CellStep.begin_operation second_operation refl refl)

settled_once_example :
    (complete_node_operation_state moved_on first_operation ≡ moved_on)
    × (fail_node_operation_state moved_on first_operation timed_out ≡ moved_on)
settled_once_example =
    settled_once operating_cell moved_on first_operation timed_out timed_out (omega arith)
      (inr moved_on-Reach)

abbrev base : CellBase
base = record { args = text "args"; live_leases = []; result_validity = none; live_failure = none }

abbrev first_attempt : CellReadinessAttempt
first_attempt = record { attempt_id = 1; promise = object 3 }

abbrev second_attempt : CellReadinessAttempt
second_attempt = record { attempt_id = 2; promise = object 4 }

-- The first attempt has failed.
abbrev failed_cell : GraphNodeState
failed_cell = record {
  next_operation_id = 1;
  next_attempt_id = 1;
  next_live_generation = 1;
  phase = CellPhase.readiness_error base (object 8);
}

abbrev acquiring_again : GraphNodeState
acquiring_again = record failed_cell {
  next_attempt_id = 2;
  phase = CellPhase.acquiring base second_attempt;
}

acquiring_again-Reach : Reach failed_cell acquiring_again
unfolding begin_readiness_attempt_state
acquiring_again-Reach = Reach.next Reach.here (CellStep.begin_readiness base (object 4) refl)

abbrev acquired : AcquiredReady
acquired = record {
  node = object 1;
  args = text "args";
  deps = [];
  result_state = record {
    result = text "result";
    result_validity = ResultValidity.current none;
    result_loaded_at = none;
    result_validity_commit = CommitKind.default;
  };
  result_validity_policy = NormalizedResultValidityPolicy.static;
  disposers = record { list = []; invoked = []; settled = false };
  node_lifetime = object 2;
}

late_acquire_stale_example :
    complete_acquire_state acquiring_again first_attempt acquired
    ≡ AcquireCompletion.stale acquiring_again
unfolding is_current_attempt
late_acquire_stale_example =
    late_acquire_stale failed_cell acquiring_again first_attempt acquired (omega arith) refl
      acquiring_again-Reach

abbrev same_order : String → String → ℤ
same_order a b = pos 0

abbrev leases : List CellLiveLease
leases =
    record { lease_id = "l1"; source = mobx; scope = text "a"; scope_key = "a" }
    ∷ record { lease_id = "l2"; source = manual; scope = text "b"; scope_key = "b" }
    ∷ record { lease_id = "l3"; source = mobx; scope = text "a"; scope_key = "a" }
    ∷ []

project_live_demand_example :
    ((project_live_demand same_order leases).is_live ≡ true)
    × ((project_live_demand same_order leases).sources ≡ manual ∷ mobx ∷ [])
unfolding has
project_live_demand_example = project_live_demand_lem same_order leases

abbrev with_lease : CellBase → CellBase
with_lease b = record b { live_leases = leases }
