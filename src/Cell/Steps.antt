-- ===== src/Cell/Steps.antt =====
-- The writes that the operations of a node make to its cell, as steps: each is one of the
-- transitions of cellTransitions.ts, with the identifiers that readinessAttempt.ts and
-- operationState.ts draw from the cell's counters, or an update of the base or the ready data by
-- liveness/index.ts. A step of a late operation is one with any operation or attempt at all.
use frond.Shared.{◌+◌, ◌≤◌, String, ◌≡◌, refl, nat_eq, Option, none, some, List, arith}
use frond.Types.Value.{Value}
use frond.Types.Validity.{ResultValidity}
use frond.Types.Live.{GraphFailure}
use frond.Types.Operations.{RunningOperation, NodeOperationFailure}
use frond.Disposers.Registry.{Disposer}
use frond.Validity.Commit.{ResultState}
use frond.Cell.Phase.{
  CellReadinessAttempt, CellBase, ReadyData, CellPhase, acquiring, operating, map_phase_base,
  map_phase_ready,
}
use frond.Cell.Transitions.{
  GraphNodeState, begin_readiness_attempt_state, fail_readiness_attempt_state, AcquiredReady,
  committed, complete_acquire_state, begin_node_operation_state, complete_node_operation_state,
  fail_node_operation_state, commit_ready_operation_state, append_ready_disposers_state,
  complete_release_state, mark_invalid_state,
}

-- The attempt that runReadinessAttempt makes.
abbrev pub next_attempt : GraphNodeState → Value → CellReadinessAttempt
next_attempt s promise = record { attempt_id = s.next_attempt_id + 1; promise = promise }

pub data CellStep (s t : GraphNodeState) : Type 0 where
  begin_readiness :
      (base : CellBase) (promise : Value)
      → t ≡ begin_readiness_attempt_state s (s.next_attempt_id + 1) base (next_attempt s promise)
      → CellStep s t
  fail_readiness :
      (cause : Value) (v : Option ResultValidity)
      → t ≡ fail_readiness_attempt_state s cause v
      → CellStep s t
  complete_acquire :
      (attempt : CellReadinessAttempt) (r : AcquiredReady)
      → complete_acquire_state s attempt r ≡ committed t
      → CellStep s t
  begin_operation :
      (operation : RunningOperation)
      → operation.operation_id ≡ s.next_operation_id
      → t ≡ begin_node_operation_state s operation
      → CellStep s t
  complete_operation :
      (operation : RunningOperation) → t ≡ complete_node_operation_state s operation → CellStep s t
  fail_operation :
      (operation : RunningOperation) (failure : NodeOperationFailure)
      → t ≡ fail_node_operation_state s operation failure
      → CellStep s t
  commit_ready :
      (deps : List (String × Value)) (r : ResultState) (ds : List Disposer)
      → t ≡ commit_ready_operation_state s deps r ds
      → CellStep s t
  append_disposers : (ds : List Disposer) → t ≡ append_ready_disposers_state s ds → CellStep s t
  release : (failures : List GraphFailure) → t ≡ complete_release_state s failures → CellStep s t
  invalidate : (failure : Value) → t ≡ mark_invalid_state s failure → CellStep s t
  update_base :
      (f : CellBase → CellBase) → t ≡ record s { phase = map_phase_base s.phase f } → CellStep s t
  update_ready :
      (f : ReadyData → ReadyData)
      → t ≡ record s { phase = map_phase_ready s.phase f }
      → CellStep s t
  next_generation :
      t ≡ record s { next_live_generation = s.next_live_generation + 1 } → CellStep s t

pub data Reach (s : GraphNodeState) : GraphNodeState → Type 0 where
  here : Reach s s
  next : {t u : GraphNodeState} → Reach s t → CellStep t u → Reach s u

abbrev pub running_operation : CellPhase → Option RunningOperation
running_operation (operating r operation) = some operation
running_operation _ = none

abbrev pub current_attempt : CellPhase → Option CellReadinessAttempt
current_attempt (acquiring base attempt) = some attempt
current_attempt _ = none

-- What one step does to the running operation: it goes, it stays, or a new one takes the next
-- identifier. The counter never falls.
pub data RunningChange (s t : GraphNodeState) : Type 0 where
  gone :
      s.next_operation_id ≤ t.next_operation_id
      → running_operation t.phase ≡ none
      → RunningChange s t
  kept :
      s.next_operation_id ≤ t.next_operation_id
      → running_operation t.phase ≡ running_operation s.phase
      → RunningChange s t
  began :
      (operation : RunningOperation)
      → operation.operation_id ≡ s.next_operation_id
      → t.next_operation_id ≡ s.next_operation_id + 1
      → running_operation t.phase ≡ some operation
      → RunningChange s t

-- An operation that ends takes the running one with it, or leaves it.
complete_change :
    (s : GraphNodeState) (operation : RunningOperation)
    → RunningChange s (complete_node_operation_state s operation)
unfolding complete_node_operation_state
complete_change s operation = grind (arith, gone, kept)

fail_change :
    (s : GraphNodeState) (operation : RunningOperation) (failure : NodeOperationFailure)
    → RunningChange s (fail_node_operation_state s operation failure)
unfolding fail_node_operation_state
fail_change s operation failure = grind (arith, gone, kept)

begin_change :
    (phase : CellPhase) (s : GraphNodeState) (operation : RunningOperation)
    → s.phase ≡ phase
    → operation.operation_id ≡ s.next_operation_id
    → RunningChange s (begin_node_operation_state s operation)
unfolding begin_node_operation_state
begin_change (CellPhase.ready r f) s operation p h = began operation h (ground arith) (ground arith)
begin_change _ s operation p h = kept (ground arith) (ground arith)

pub running_change : {s t : GraphNodeState} → CellStep s t → RunningChange s t
unfolding begin_readiness_attempt_state fail_readiness_attempt_state complete_acquire_state
    begin_node_operation_state commit_ready_operation_state append_ready_disposers_state
    complete_release_state mark_invalid_state map_phase_base map_phase_ready
running_change (begin_readiness base promise e) = gone (ground arith) (ground arith)
running_change (fail_readiness cause v e) = kept (ground arith) (ground arith)
running_change (complete_acquire attempt r e) = kept (ground arith) (ground arith)
running_change (begin_operation operation h e) = rw e (begin_change _ _ operation refl h)
running_change (complete_operation operation e) = rw e (complete_change _ operation)
running_change (fail_operation operation failure e) = rw e (fail_change _ operation failure)
running_change (commit_ready deps r ds e) = kept (ground arith) (ground arith)
running_change (append_disposers ds e) = kept (ground arith) (ground arith)
running_change (release failures e) = gone (ground arith) (ground arith)
running_change (invalidate failure e) = gone (ground arith) (ground arith)
running_change (update_base f e) = kept (ground arith) (ground arith)
running_change (update_ready f e) = kept (ground arith) (ground arith)
running_change (next_generation e) = kept (ground arith) (ground arith)

-- An attempt counter never falls, and a step that leaves another attempt current has drawn it from
-- the counter.
pub data AttemptChange (s t : GraphNodeState) : Type 0 where
  gone : s.next_attempt_id ≤ t.next_attempt_id → current_attempt t.phase ≡ none → AttemptChange s t
  kept :
      s.next_attempt_id ≤ t.next_attempt_id
      → current_attempt t.phase ≡ current_attempt s.phase
      → AttemptChange s t
  began :
      (attempt : CellReadinessAttempt)
      → attempt.attempt_id ≡ s.next_attempt_id + 1
      → t.next_attempt_id ≡ s.next_attempt_id + 1
      → current_attempt t.phase ≡ some attempt
      → AttemptChange s t

pub attempt_change : {s t : GraphNodeState} → CellStep s t → AttemptChange s t
unfolding begin_readiness_attempt_state fail_readiness_attempt_state complete_acquire_state
    begin_node_operation_state complete_node_operation_state fail_node_operation_state
    commit_ready_operation_state append_ready_disposers_state complete_release_state
    mark_invalid_state map_phase_base map_phase_ready
attempt_change {s} (begin_readiness base promise e) =
    began (next_attempt s promise) refl (ground arith) (ground arith)
attempt_change (fail_readiness cause v e) = gone (ground arith) (ground arith)
attempt_change (complete_acquire attempt r e) = gone (ground arith) (ground arith)
attempt_change (begin_operation operation h e) = kept (ground arith) (ground arith)
attempt_change (complete_operation operation e) = kept (ground arith) (ground arith)
attempt_change (fail_operation operation failure e) = kept (ground arith) (ground arith)
attempt_change (commit_ready deps r ds e) = kept (ground arith) (ground arith)
attempt_change (append_disposers ds e) = kept (ground arith) (ground arith)
attempt_change (release failures e) = gone (ground arith) (ground arith)
attempt_change (invalidate failure e) = gone (ground arith) (ground arith)
attempt_change (update_base f e) = kept (ground arith) (ground arith)
attempt_change (update_ready f e) = kept (ground arith) (ground arith)
attempt_change (next_generation e) = kept (ground arith) (ground arith)
