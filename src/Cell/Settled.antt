-- ===== src/Cell/Settled.antt =====
-- Late completions, failures and acquires in packages/core/src/graph/cell/cellTransitions.ts.
use frond.Shared.{ℕ, ◌≤◌, ◌<◌, ◌≡◌, refl, ◌≢◌, ◌⊎◌, inl, inr, false, nat_eq, some, arith}
use frond.Types.Operations.{RunningOperation, NodeOperationFailure}
use frond.Cell.Phase.{CellReadinessAttempt, CellPhase, acquiring, operating}
use frond.Cell.Transitions.{
  GraphNodeState, AcquiredReady, stale, is_current_attempt, complete_acquire_state,
  complete_node_operation_state, fail_node_operation_state,
}
use frond.Cell.Steps.{
  Reach, here, next, running_operation, current_attempt, RunningChange, gone, kept, began,
  running_change, AttemptChange, attempt_change,
}

-- The identifier is drawn, and no running operation has it.
pub record IsRetired (id : ℕ) (s : GraphNodeState) : Type 0 where
  pub drawn : id < s.next_operation_id
  pub ended :
      (operation : RunningOperation)
      → running_operation s.phase ≡ some operation
      → operation.operation_id ≢ id

change-IsRetired :
    {s t : GraphNodeState} (id : ℕ) → RunningChange s t → IsRetired id s → IsRetired id t
change-IsRetired id (gone n e) h = record {
  drawn = omega (arith, h.drawn);
  ended = λ operation r same. cc;
}
change-IsRetired id (kept n e) h = record {
  drawn = omega (arith, h.drawn);
  ended = λ operation r. h.ended operation (cc);
}
change-IsRetired id (began fresh i n e) h = record {
  drawn = omega (arith, h.drawn);
  ended = λ operation r same. ground (arith, h.drawn);
}

Reach-IsRetired : {s t : GraphNodeState} (id : ℕ) → Reach s t → IsRetired id s → IsRetired id t
Reach-IsRetired id here h = h
Reach-IsRetired id (next r step) h =
    change-IsRetired id (running_change step) (Reach-IsRetired id r h)

-- Ending an operation whose identifier is drawn retires it.
complete-IsRetired :
    (s : GraphNodeState) (operation : RunningOperation)
    → operation.operation_id < s.next_operation_id
    → IsRetired operation.operation_id (complete_node_operation_state s operation)
unfolding complete_node_operation_state
complete-IsRetired s operation h = record { drawn = h; ended = λ o r same. ground arith }

fail-IsRetired :
    (s : GraphNodeState) (operation : RunningOperation) (failure : NodeOperationFailure)
    → operation.operation_id < s.next_operation_id
    → IsRetired operation.operation_id (fail_node_operation_state s operation failure)
unfolding fail_node_operation_state
fail-IsRetired s operation failure h = record { drawn = h; ended = λ o r same. ground arith }

-- A late end of a retired operation writes back the state that is there.
retired_complete :
    (phase : CellPhase) (s : GraphNodeState) (operation : RunningOperation)
    → s.phase ≡ phase
    → IsRetired operation.operation_id s
    → complete_node_operation_state s operation ≡ s
unfolding complete_node_operation_state
retired_complete (operating r o) s operation p h = ground (arith, h.ended o)
retired_complete _ s operation p h = ground arith

retired_fail :
    (phase : CellPhase) (s : GraphNodeState) (operation : RunningOperation)
    (f : NodeOperationFailure)
    → s.phase ≡ phase
    → IsRetired operation.operation_id s
    → fail_node_operation_state s operation f ≡ s
unfolding fail_node_operation_state
retired_fail (operating r o) s operation f p h = ground (arith, h.ended o)
retired_fail _ s operation f p h = ground arith

-- After an operation has completed, or failed, a second completion or failure of it changes nothing
-- in any state that the cell reaches, whatever ran in between; so a late end neither clears a later
-- operation nor overwrites its failure.
pub settled_once :
    (s u : GraphNodeState) (operation : RunningOperation) (failure late : NodeOperationFailure)
    → operation.operation_id < s.next_operation_id
    → Reach (complete_node_operation_state s operation) u
      ⊎ Reach (fail_node_operation_state s operation failure) u
    → (complete_node_operation_state u operation ≡ u)
      × (fail_node_operation_state u operation late ≡ u)
settled_once s u operation failure late h (inl r) =
    let k = Reach-IsRetired operation.operation_id r (complete-IsRetired s operation h) in
    (retired_complete u.phase u operation refl k, retired_fail u.phase u operation late refl k)
settled_once s u operation failure late h (inr r) =
    let k = Reach-IsRetired operation.operation_id r (fail-IsRetired s operation failure h) in
    (retired_complete u.phase u operation refl k, retired_fail u.phase u operation late refl k)

-- The attempt was begun, and is not the one that the cell acquires for.
pub record IsOver (id : ℕ) (s : GraphNodeState) : Type 0 where
  pub drawn : id ≤ s.next_attempt_id
  pub over :
      (attempt : CellReadinessAttempt)
      → current_attempt s.phase ≡ some attempt
      → attempt.attempt_id ≢ id

change-IsOver : {s t : GraphNodeState} (id : ℕ) → AttemptChange s t → IsOver id s → IsOver id t
change-IsOver id (AttemptChange.gone n e) h = record {
  drawn = omega (arith, h.drawn);
  over = λ attempt r same. cc;
}
change-IsOver id (AttemptChange.kept n e) h = record {
  drawn = omega (arith, h.drawn);
  over = λ attempt r. h.over attempt (cc);
}
change-IsOver id (AttemptChange.began fresh i n e) h = record {
  drawn = omega (arith, h.drawn);
  over = λ attempt r same. ground (arith, h.drawn);
}

Reach-IsOver : {s t : GraphNodeState} (id : ℕ) → Reach s t → IsOver id s → IsOver id t
Reach-IsOver id here h = h
Reach-IsOver id (next r step) h = change-IsOver id (attempt_change step) (Reach-IsOver id r h)

over-stale :
    (phase : CellPhase) (s : GraphNodeState) (attempt : CellReadinessAttempt) (r : AcquiredReady)
    → s.phase ≡ phase
    → IsOver attempt.attempt_id s
    → complete_acquire_state s attempt r ≡ stale s
unfolding complete_acquire_state
over-stale (acquiring base current) s attempt r p h = ground (arith, h.over current)
over-stale _ s attempt r p h = ground arith

not_current-IsOver :
    (phase : CellPhase) (s : GraphNodeState) (attempt : CellReadinessAttempt)
    → s.phase ≡ phase
    → attempt.attempt_id ≤ s.next_attempt_id
    → is_current_attempt s.phase attempt ≡ false
    → IsOver attempt.attempt_id s
unfolding is_current_attempt
not_current-IsOver (acquiring base current) s attempt p d c = record {
  drawn = d;
  over = λ a e same. ground arith;
}
not_current-IsOver _ s attempt p d c = record { drawn = d; over = λ a e same. ground arith }

-- An acquire that finishes after its attempt is over, because it failed, was released or
-- invalidated, or a later attempt began, never commits: in every state that the cell reaches from
-- there its completion is stale and leaves the state alone.
pub late_acquire_stale :
    (s u : GraphNodeState) (attempt : CellReadinessAttempt) (r : AcquiredReady)
    → attempt.attempt_id ≤ s.next_attempt_id
    → is_current_attempt s.phase attempt ≡ false
    → Reach s u
    → complete_acquire_state u attempt r ≡ stale u
late_acquire_stale s u attempt r drawn over reach =
    over-stale u.phase u attempt r refl
      (Reach-IsOver attempt.attempt_id reach (not_current-IsOver s.phase s attempt refl drawn over))
