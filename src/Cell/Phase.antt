-- ===== src/Cell/Phase.antt =====
-- The phases of a graph cell: packages/core/src/graph/cell/cellPhase.ts. What the program holds as
-- `unknown`, a node, a driver's resource or a promise is a `Value`, an object its reference; an
-- optional `unknown` that is missing is the value undefined.
use frond.Shared.{ℕ, String, Option, none, some, List, []}
use frond.Shared.Int.{ℤ}
use frond.Types.Value.{Value}
use frond.Types.Validity.{ResultValidity, NormalizedResultValidityPolicy}
use frond.Types.Live.{
  NodeLiveSource, NodeLiveLeaseId, NodeLiveScopeKey, NodeLiveDemandSnapshot, NodeLiveFailure,
}
use frond.Types.Operations.{RunningOperation, NodeOperationFailure}
use frond.Disposers.Registry.{DisposerRegistry}

pub record CellReadinessAttempt : Type 0 where
  pub attempt_id : ℕ
  pub promise : Value

pub record CellLiveLease : Type 0 where
  pub lease_id : NodeLiveLeaseId
  pub source : NodeLiveSource
  pub scope : Value
  pub scope_key : NodeLiveScopeKey

pub record CellBase : Type 0 where
  pub args : Value
  pub live_leases : List CellLiveLease
  pub result_validity : Option ResultValidity
  pub live_failure : Option NodeLiveFailure

pub record ActiveLive : Type 0 where
  pub generation : ℕ
  pub demand : NodeLiveDemandSnapshot
  pub resource : Value

pub data LiveResourceState : Type 0 where
  inactive : LiveResourceState
  active : ActiveLive → LiveResourceState

-- The fields of `CellBase` that a ready cell has, and its own.
pub record ReadyData : Type 0 where
  pub args : Value
  pub live_leases : List CellLiveLease
  pub live_failure : Option NodeLiveFailure
  pub node : Value
  pub deps : List (String × Value)
  pub result : Value
  pub result_validity : ResultValidity
  pub result_loaded_at : Option ℤ
  pub result_validity_policy : NormalizedResultValidityPolicy
  pub disposers : DisposerRegistry
  pub live_resource : LiveResourceState
  pub node_lifetime : Value

pub data CellPhase : Type 0 where
  idle : CellBase → Value → CellPhase
  acquiring : CellBase → CellReadinessAttempt → CellPhase
  readiness_error : CellBase → Value → CellPhase
  ready : ReadyData → Option NodeOperationFailure → CellPhase
  operating : ReadyData → RunningOperation → CellPhase
  releasing : CellBase → Value → CellPhase
  invalid : Value → Option CellBase → CellPhase
  evicted : Option String → CellPhase

pub data PhaseTag : Type 0 where
  idle acquiring readiness_error ready operating releasing invalid evicted : PhaseTag

abbrev pub phase_tag : CellPhase → PhaseTag
phase_tag (idle base failure) = PhaseTag.idle
phase_tag (acquiring base attempt) = PhaseTag.acquiring
phase_tag (readiness_error base error) = PhaseTag.readiness_error
phase_tag (ready r failure) = PhaseTag.ready
phase_tag (operating r operation) = PhaseTag.operating
phase_tag (releasing base failure) = PhaseTag.releasing
phase_tag (invalid error base) = PhaseTag.invalid
phase_tag (evicted reason) = PhaseTag.evicted

pub data CellPhaseBaseLookup : Type 0 where
  found : CellBase → CellPhaseBaseLookup
  missing : PhaseTag → CellPhaseBaseLookup

pub data CellPhaseReadyLookup : Type 0 where
  found : ReadyData → CellPhaseReadyLookup
  missing : PhaseTag → CellPhaseReadyLookup

pub data CellPhaseReadinessAttemptLookup : Type 0 where
  found : CellReadinessAttempt → CellPhaseReadinessAttemptLookup
  missing : PhaseTag → CellPhaseReadinessAttemptLookup

unfoldable pub cell_base_from_ready : ReadyData → CellBase
cell_base_from_ready r = record {
  args = r.args;
  live_leases = r.live_leases;
  result_validity = some r.result_validity;
  live_failure = r.live_failure;
}

unfoldable pub phase_ready_data : CellPhase → CellPhaseReadyLookup
phase_ready_data (ready r failure) = CellPhaseReadyLookup.found r
phase_ready_data (operating r operation) = CellPhaseReadyLookup.found r
phase_ready_data (idle base failure) = CellPhaseReadyLookup.missing PhaseTag.idle
phase_ready_data (acquiring base attempt) = CellPhaseReadyLookup.missing PhaseTag.acquiring
phase_ready_data (readiness_error base error) =
    CellPhaseReadyLookup.missing PhaseTag.readiness_error
phase_ready_data (releasing base failure) = CellPhaseReadyLookup.missing PhaseTag.releasing
phase_ready_data (invalid error base) = CellPhaseReadyLookup.missing PhaseTag.invalid
phase_ready_data (evicted reason) = CellPhaseReadyLookup.missing PhaseTag.evicted

unfoldable pub phase_base : CellPhase → CellPhaseBaseLookup
unfolding cell_base_from_ready
phase_base (idle base failure) = CellPhaseBaseLookup.found base
phase_base (acquiring base attempt) = CellPhaseBaseLookup.found base
phase_base (readiness_error base error) = CellPhaseBaseLookup.found base
phase_base (ready r failure) = CellPhaseBaseLookup.found (cell_base_from_ready r)
phase_base (operating r operation) = CellPhaseBaseLookup.found (cell_base_from_ready r)
phase_base (releasing base failure) = CellPhaseBaseLookup.found base
phase_base (invalid error none) = CellPhaseBaseLookup.missing PhaseTag.invalid
phase_base (invalid error (some base)) = CellPhaseBaseLookup.found base
phase_base (evicted reason) = CellPhaseBaseLookup.missing PhaseTag.evicted

unfoldable pub phase_args : CellPhase → Value
unfolding phase_base
phase_args phase = elim (phase_base phase) [
  | found base ↦ base.args
  | missing tag ↦ Value.undefined
]

unfoldable pub phase_live_leases : CellPhase → List CellLiveLease
unfolding phase_base
phase_live_leases phase = elim (phase_base phase) [
  | found base ↦ base.live_leases
  | missing tag ↦ []
]

unfoldable pub phase_readiness_attempt : CellPhase → CellPhaseReadinessAttemptLookup
phase_readiness_attempt (acquiring base attempt) = CellPhaseReadinessAttemptLookup.found attempt
phase_readiness_attempt (idle base failure) = CellPhaseReadinessAttemptLookup.missing PhaseTag.idle
phase_readiness_attempt (readiness_error base error) =
    CellPhaseReadinessAttemptLookup.missing PhaseTag.readiness_error
phase_readiness_attempt (ready r failure) = CellPhaseReadinessAttemptLookup.missing PhaseTag.ready
phase_readiness_attempt (operating r operation) =
    CellPhaseReadinessAttemptLookup.missing PhaseTag.operating
phase_readiness_attempt (releasing base failure) =
    CellPhaseReadinessAttemptLookup.missing PhaseTag.releasing
phase_readiness_attempt (invalid error base) =
    CellPhaseReadinessAttemptLookup.missing PhaseTag.invalid
phase_readiness_attempt (evicted reason) = CellPhaseReadinessAttemptLookup.missing PhaseTag.evicted

-- `nextBase.resultValidity ?? ready.resultValidity`.
abbrev validity_or : Option ResultValidity → ResultValidity → ResultValidity
validity_or none v = v
validity_or (some v) w = v

unfoldable pub map_ready_base : ReadyData → (CellBase → CellBase) → ReadyData
unfolding cell_base_from_ready
map_ready_base r f =
    let next_base = f (cell_base_from_ready r) in
    record r {
      args = next_base.args;
      live_leases = next_base.live_leases;
      live_failure = next_base.live_failure;
      result_validity = validity_or next_base.result_validity r.result_validity;
    }

unfoldable pub map_phase_base : CellPhase → (CellBase → CellBase) → CellPhase
unfolding map_ready_base
map_phase_base (idle base failure) f = idle (f base) failure
map_phase_base (acquiring base attempt) f = acquiring (f base) attempt
map_phase_base (readiness_error base error) f = readiness_error (f base) error
map_phase_base (ready r failure) f = ready (map_ready_base r f) failure
map_phase_base (operating r operation) f = operating (map_ready_base r f) operation
map_phase_base (releasing base failure) f = releasing (f base) failure
map_phase_base (invalid error none) f = invalid error none
map_phase_base (invalid error (some base)) f = invalid error (some (f base))
map_phase_base (evicted reason) f = evicted reason

unfoldable pub map_phase_ready : CellPhase → (ReadyData → ReadyData) → CellPhase
map_phase_ready (ready r failure) f = ready (f r) failure
map_phase_ready (operating r operation) f = operating (f r) operation
map_phase_ready phase f = phase
