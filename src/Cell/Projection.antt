-- ===== src/Cell/Projection.antt =====
-- projectCellPhase of packages/core/src/graph/cell/cellPhase.ts: what a phase shows to readers.
use frond.Shared.{String, Option, some, []}
use frond.Shared.Int.{ℤ}
use frond.Types.Value.{Value}
use frond.Types.Validity.{ResultValidity}
use frond.Types.Live.{NodeLiveDemandSnapshot, NodeLiveFailure}
use frond.Types.Operations.{
  NodeOperation, NodeOperationFailure, NodeRunState, NodeStatus, NodeObjectLookup, wired, running,
}
use frond.Cell.Phase.{
  CellReadinessAttempt, CellBase, ReadyData, CellPhase, acquiring, operating, evicted,
}
use frond.Cell.Demand.{project_live_demand}

pub data ProjectedFailure : Type 0 where
  none : ProjectedFailure
  present : Value → ProjectedFailure

-- The fields that every projection but `Removed` has. `args` is undefined where there are none.
pub record CellPhaseProjectionBase : Type 0 where
  pub status : NodeStatus
  pub args : Value
  pub result_validity : Option ResultValidity
  pub failure : ProjectedFailure
  pub live_demand : NodeLiveDemandSnapshot
  pub live_failure : Option NodeLiveFailure
  pub operation : NodeOperation
  pub operation_failure : Option NodeOperationFailure

pub data CellPhaseProjection : Type 0 where
  idle releasing readiness_error : CellPhaseProjectionBase → CellPhaseProjection
  pending : CellPhaseProjectionBase → Value → CellPhaseProjection
  ready : CellPhaseProjectionBase → Value → Value → CellPhaseProjection
  invalid : CellPhaseProjectionBase → NodeObjectLookup → CellPhaseProjection
  removed : Option String → CellPhaseProjection

projected_failure : Value → ProjectedFailure
projected_failure Value.undefined = ProjectedFailure.none
projected_failure failure = ProjectedFailure.present failure

module _ (locale_compare : String → String → ℤ) where
  projected_base : CellBase → NodeStatus → ProjectedFailure → CellPhaseProjectionBase
  projected_base base status failure = record {
    status = status;
    args = base.args;
    result_validity = base.result_validity;
    failure = failure;
    live_demand = project_live_demand locale_compare base.live_leases;
    live_failure = base.live_failure;
    operation = NodeOperation.idle;
    operation_failure = Option.none;
  }

  projected_acquiring : CellBase → NodeStatus → CellReadinessAttempt → CellPhaseProjection
  unfolding projected_base
  projected_acquiring base status attempt =
      CellPhaseProjection.pending (projected_base base status ProjectedFailure.none) attempt.promise

  projected_ready : ReadyData → NodeOperation → Option NodeOperationFailure → CellPhaseProjection
  projected_ready r operation operation_failure =
      CellPhaseProjection.ready
        (record {
          status = wired NodeRunState.ready;
          args = r.args;
          result_validity = some r.result_validity;
          failure = ProjectedFailure.none;
          live_demand = project_live_demand locale_compare r.live_leases;
          live_failure = r.live_failure;
          operation = operation;
          operation_failure = operation_failure;
        })
        r.result r.node

  projected_invalid : Value → Option CellBase → CellPhaseProjection
  unfolding projected_base projected_failure
  projected_invalid error Option.none =
      CellPhaseProjection.invalid
        (record {
          status = NodeStatus.invalid error;
          args = Value.undefined;
          result_validity = Option.none;
          failure = projected_failure error;
          live_demand = project_live_demand locale_compare [];
          live_failure = Option.none;
          operation = NodeOperation.idle;
          operation_failure = Option.none;
        })
        NodeObjectLookup.missing
  projected_invalid error (some base) =
      CellPhaseProjection.invalid
        (projected_base base (NodeStatus.invalid error) (projected_failure error))
        NodeObjectLookup.missing

  unfoldable pub project_cell_phase : CellPhase → CellPhaseProjection
  unfolding projected_base projected_failure projected_acquiring projected_ready projected_invalid
  project_cell_phase (CellPhase.idle base cleanup_failure) =
      CellPhaseProjection.idle
        (projected_base base (wired NodeRunState.idle) (projected_failure cleanup_failure))
  project_cell_phase (acquiring base attempt) =
      projected_acquiring base (wired (NodeRunState.pending attempt.attempt_id)) attempt
  project_cell_phase (CellPhase.readiness_error base error) =
      CellPhaseProjection.readiness_error
        (projected_base base (wired (NodeRunState.error error)) (projected_failure error))
  project_cell_phase (CellPhase.ready r operation_failure) =
      projected_ready r NodeOperation.idle operation_failure
  project_cell_phase (operating r operation) = projected_ready r (running operation) Option.none
  project_cell_phase (CellPhase.releasing base cleanup_failure) =
      CellPhaseProjection.releasing
        (projected_base base (wired NodeRunState.idle) (projected_failure cleanup_failure))
  project_cell_phase (CellPhase.invalid error base) = projected_invalid error base
  project_cell_phase (evicted reason) = CellPhaseProjection.removed reason
