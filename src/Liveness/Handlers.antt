-- ===== src/Liveness/Handlers.antt =====
-- acquireNodeLiveLease, rollbackNodeLiveLease and releaseNodeLiveLease of
-- packages/core/src/graph/liveness/index.ts, with their deliveries and notifications. The key value
-- of a scope, its reading as text and the failure that a refused scope makes are parameters. The
-- number of a lease is that of nextLiveLeaseId of packages/core/src/graph/system/systemLiveness.ts.
pub mod Kept
pub mod Transitions
pub mod Undone
use Prim.Native.String.{◌++◌ as string_append}
use frond.Shared.{
  ℕ, ◌+◌, String, Bool, true, false, Option, none, some, List, [], ◌∷◌, ◌++◌, if◌then◌else◌,
}
use frond.Shared.Int.{ℤ}
use frond.Types.Value.{Value}
use frond.Types.Live.{
  NodeId, NodeLiveLeaseId, NodeLiveScopeKey, NodeLiveSource, NodeLiveDemandSnapshot, GraphFailure,
}
use frond.Cell.Phase.{CellLiveLease, phase_live_leases}
use frond.Cell.Demand.{project_live_demand}
use frond.Keys.Value.{Text, KeyInput, KeyError, KeyResult}
use frond.Keys.Encode.{Json, canonical_key}
use frond.Liveness.Leases.{LeaseChange, acquire_transition, rollback_transition, release_transition}
use frond.Liveness.Delivery.{Stage, LiveHooks, LiveCell, Answer, deliver_live_demand}

pub record AcquireNodeLiveLeaseRequest : Type 0 where
  pub node_id : NodeId
  pub source : NodeLiveSource
  pub scope : Value

pub data NodeLiveLeaseResult : Type 0 where
  node_missing : NodeId → NodeLiveDemandSnapshot → NodeLiveLeaseResult
  lease_failed : NodeId → NodeLiveDemandSnapshot → List GraphFailure → NodeLiveLeaseResult
  lease_held :
      NodeId
      → NodeLiveLeaseId
      → NodeLiveDemandSnapshot
      → Bool
      → List GraphFailure
      → NodeLiveLeaseResult

-- The calls of the callbacks and observers, in their order.
pub data Notice : Type 0 where
  lease_prepared : NodeLiveLeaseId → Notice
  changed : NodeId → Notice
  live_demand_changed : NodeId → NodeLiveDemandSnapshot → Notice
  live_failures : NodeId → List GraphFailure → Notice

-- The cell, the leases that have been numbered, and the notices.
pub record LeaseWork : Type 0 where
  pub cell : LiveCell
  pub numbered : ℕ
  pub notices : List Notice

-- What the parts of the host and the codec give.
pub record LeaseHost : Type 0 where
  pub locale_compare : String → String → ℤ
  pub stringify_sources : List NodeLiveSource → String
  pub stringify_scopes : List Value → String
  pub live_delivery_failed : Stage → Value → GraphFailure
  pub now : ℤ
  pub json : Json
  pub key_input : Value → KeyInput
  pub text_of : Text → NodeLiveScopeKey
  pub scope_refused : KeyError → GraphFailure
  pub decimal : ℕ → String

pub live_scope_key : LeaseHost → Value → KeyResult NodeLiveScopeKey
unfolding canonical_key
live_scope_key host scope = elim (canonical_key host.json (host.key_input scope)) [
  | KeyResult.ok text ↦ KeyResult.ok (host.text_of text)
  | KeyResult.err error ↦ KeyResult.err error
]

abbrev pub rollback_notices : NodeId → NodeLiveDemandSnapshot → List GraphFailure → List Notice
rollback_notices node_id demand [] = changed node_id ∷ live_demand_changed node_id demand ∷ []
rollback_notices node_id demand (f ∷ fs) =
    changed node_id ∷ live_demand_changed node_id demand ∷ live_failures node_id (f ∷ fs) ∷ []

module _ (host : LeaseHost) (hooks : Option LiveHooks) where
  -- `changed ? yield* deliverLiveDemand(…) : []`.
  unfoldable pub settle_change : LiveCell → LeaseChange → LiveCell × List GraphFailure
  unfolding deliver_live_demand
  settle_change cell change =
      let delivery =
        deliver_live_demand host.stringify_sources host.stringify_scopes host.live_delivery_failed
          host.now hooks cell change.live_demand in
      if change.changed then delivery else (cell, [])

  abbrev pub notify_changed : NodeId → LeaseChange → List Notice
  notify_changed node_id change = if change.changed then changed node_id ∷ [] else []

  -- From the lease on, which has its number and its scope key.
  unfoldable pub hold_lease :
      NodeId → CellLiveLease → LiveCell → LiveCell × List Notice × NodeLiveLeaseResult
  unfolding acquire_transition settle_change
  hold_lease node_id lease cell =
      let (change, state) = acquire_transition host.locale_compare lease cell.state in
      let (after, failures) = settle_change (record cell { state = state }) change in
      (
        after,
        notify_changed node_id change,
        lease_held node_id lease.lease_id change.live_demand change.changed failures,
      )

  pub acquire_node_live_lease :
      AcquireNodeLiveLeaseRequest → Option LeaseWork → Option LeaseWork × NodeLiveLeaseResult
  unfolding hold_lease live_scope_key
  acquire_node_live_lease request none =
      (none, node_missing request.node_id (project_live_demand host.locale_compare []))
  acquire_node_live_lease request (some work) = elim (live_scope_key host request.scope) [
    | KeyResult.err error ↦ (
      some work,
      lease_failed request.node_id
          (project_live_demand host.locale_compare (phase_live_leases work.cell.state.phase))
          (host.scope_refused error ∷ []),
    )
    | KeyResult.ok scope_key ↦
        let lease_id = string_append "live-lease:" (host.decimal (work.numbered + 1)) in
        let (after, notices, result) =
          hold_lease request.node_id
            (record {
              lease_id = lease_id;
              source = request.source;
              scope = request.scope;
              scope_key = scope_key;
            })
            work.cell in
        (
          some (record {
            cell = after;
            numbered = work.numbered + 1;
            notices = work.notices ++ lease_prepared lease_id ∷ notices;
          }),
          result,
        )
  ]

  -- What follows the transition of a rollback: nothing for `Missing` and for an unchanged demand.
  abbrev pub rolled_back : NodeId → LiveCell → Option LeaseChange → LiveCell × List Notice
  rolled_back node_id here none = (here, [])
  rolled_back node_id here (some change) =
      let (after, failures) = settle_change here change in
      if change.changed
      then (after, rollback_notices node_id change.live_demand failures)
      else (here, [])

  unfoldable pub rollback_node_live_lease :
      NodeId → NodeLiveLeaseId → LiveCell → LiveCell × List Notice
  unfolding rollback_transition settle_change
  rollback_node_live_lease node_id lease_id cell =
      let rollback = rollback_transition host.locale_compare lease_id cell.state in
      rolled_back node_id (record cell { state = rollback.1 }) rollback.0

  -- For a cell that was found.
  unfoldable pub let_go :
      NodeId → NodeLiveLeaseId → LiveCell → LiveCell × List Notice × NodeLiveLeaseResult
  unfolding release_transition settle_change
  let_go node_id lease_id cell =
      let (change, state) = release_transition host.locale_compare lease_id cell.state in
      let (after, failures) = settle_change (record cell { state = state }) change in
      (
        after,
        notify_changed node_id change,
        lease_held node_id lease_id change.live_demand change.changed failures,
      )

  pub release_node_live_lease :
      NodeId → NodeLiveLeaseId → Option LeaseWork → Option LeaseWork × NodeLiveLeaseResult
  unfolding let_go
  release_node_live_lease node_id lease_id none =
      (none, node_missing node_id (project_live_demand host.locale_compare []))
  release_node_live_lease node_id lease_id (some work) =
      let (after, notices, result) = let_go node_id lease_id work.cell in
      (some (record work { cell = after; notices = work.notices ++ notices }), result)
