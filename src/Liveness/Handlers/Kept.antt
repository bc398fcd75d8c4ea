-- ===== src/Liveness/Handlers/Kept.antt =====
-- The leases of a phase over the deliveries of packages/core/src/graph/liveness/index.ts.
use frond.Shared.{
  String, ◌≡◌, refl, ◌∙◌, Option, none, some, List, [], ◌∷◌, if_both, Option-cases, ◌⊎◌, inl, inr,
}
use frond.Shared.Int.{ℤ}
use frond.Types.Value.{Value}
use frond.Types.Live.{
  NodeLiveSource, NodeLiveDemandSnapshot, NodeLiveFailure, LiveResourceStopReason, GraphFailure,
}
use frond.Cell.Phase.{
  ActiveLive, ReadyData, LiveResourceState, CellPhase, PhaseTag, CellPhaseReadyLookup,
  phase_live_leases, phase_ready_data, map_phase_base, map_phase_ready, map_ready_base,
  cell_base_from_ready,
}
use frond.Cell.Demand.{DemandActivity, active_live_demand}
use frond.Liveness.Delivery.{
  Stage, Answer, LiveHooks, LiveCell, noting, not_updated, same_live_demand,
  set_live_resource_state, stop_live_resource, start_live_resource, update_live_resource,
  stop_current_live_resource, restart_live_resource, deliver_active, deliver_live_demand,
}

set-leases :
    (phase : CellPhase) (failure : Option NodeLiveFailure) (live : LiveResourceState)
    → phase_live_leases (
        map_phase_ready
          (map_phase_base phase (λ base. record base { live_failure = failure }))
          (λ r. record r { live_resource = live }))
      ≡ phase_live_leases phase
unfolding phase_live_leases map_phase_base map_phase_ready map_ready_base cell_base_from_ready
set-leases (CellPhase.invalid error none) failure live = refl
set-leases (CellPhase.invalid error (some base)) failure live = refl
set-leases _ failure live = refl

Answer-cases :
    {A : Type 0} (x : Answer A)
    → ((a : A) × (x ≡ Answer.ok a)) ⊎ ((cause : Value) × (x ≡ Answer.failed cause))
Answer-cases (Answer.ok a) = inl (a, refl)
Answer-cases (Answer.failed cause) = inr (cause, refl)

lookup-cases :
    (x : CellPhaseReadyLookup)
    → ((r : ReadyData) × (x ≡ CellPhaseReadyLookup.found r))
      ⊎ ((tag : PhaseTag) × (x ≡ CellPhaseReadyLookup.missing tag))
lookup-cases (CellPhaseReadyLookup.found r) = inl (r, refl)
lookup-cases (CellPhaseReadyLookup.missing tag) = inr (tag, refl)

activity-cases :
    (x : DemandActivity)
    → ((d : NodeLiveDemandSnapshot) × (x ≡ DemandActivity.inactive d))
      ⊎ ((d : NodeLiveDemandSnapshot) × (x ≡ DemandActivity.active d))
activity-cases (DemandActivity.inactive d) = inl (d, refl)
activity-cases (DemandActivity.active d) = inr (d, refl)

module _ (stringify_sources : List NodeLiveSource → String) (stringify_scopes : List Value → String)
    (live_delivery_failed : Stage → Value → GraphFailure) (now : ℤ) where
  -- The same leases.
  abbrev Keeps : LiveCell → LiveCell × List GraphFailure → Type 0
  Keeps cell (after, failures) =
      phase_live_leases after.state.phase ≡ phase_live_leases cell.state.phase

  stop-Keeps :
      (hooks : LiveHooks) (cell : LiveCell) (live : ActiveLive) (reason : LiveResourceStopReason)
      → Keeps cell (
          stop_live_resource stringify_sources stringify_scopes live_delivery_failed now hooks cell
            live reason)
  unfolding stop_live_resource set_live_resource_state
  stop-Keeps hooks cell live reason = elim (Answer-cases (hooks.stop live.resource reason)) [
    | inl (u, e) ↦ rw (e, stop_live_resource) (set-leases cell.state.phase _ _)
    | inr (cause, e) ↦ rw (e, stop_live_resource) (set-leases cell.state.phase _ _)
  ]

  start-Keeps :
      (hooks : LiveHooks) (cell : LiveCell) (demand : NodeLiveDemandSnapshot)
      (previous : List GraphFailure)
      → Keeps cell (
          start_live_resource stringify_sources stringify_scopes live_delivery_failed now hooks cell
            demand previous)
  unfolding start_live_resource set_live_resource_state
  start-Keeps hooks cell demand previous =
      elim (Answer-cases (hooks.start cell.state.next_live_generation demand)) [
        | inl (resource, e) ↦ rw (e, start_live_resource) (set-leases cell.state.phase _ _)
        | inr (cause, e) ↦ rw (e, start_live_resource) (set-leases cell.state.phase _ _)
      ]

  update-Keeps :
      (hooks : LiveHooks) (hook : Value → NodeLiveDemandSnapshot → Answer (Unit {0}))
      (cell : LiveCell) (live : ActiveLive) (demand : NodeLiveDemandSnapshot)
      → Keeps cell (
          update_live_resource stringify_sources stringify_scopes live_delivery_failed now hooks
            hook cell live demand)
  unfolding update_live_resource set_live_resource_state
  update-Keeps hooks hook cell live demand = elim (Answer-cases (hook live.resource demand)) [
    | inl (u, e) ↦ rw (e, update_live_resource) (set-leases cell.state.phase _ _)
    | inr (cause, e) ↦
        let failing = noting cell (not_updated live.generation live.resource) in
        let halted =
          stop_live_resource stringify_sources stringify_scopes live_delivery_failed now hooks
            failing live LiveResourceStopReason.update_failed in
        rw (e, update_live_resource)
          (start-Keeps hooks halted.0 demand (live_delivery_failed Stage.update cause ∷ halted.1)
            ∙ stop-Keeps hooks failing live LiveResourceStopReason.update_failed)
  ]

  current-Keeps :
      (hooks : LiveHooks) (cell : LiveCell) (live : LiveResourceState)
      (reason : LiveResourceStopReason)
      → Keeps cell (
          stop_current_live_resource stringify_sources stringify_scopes live_delivery_failed now
            hooks cell live reason)
  unfolding stop_current_live_resource set_live_resource_state
  current-Keeps hooks cell LiveResourceState.inactive reason = set-leases cell.state.phase _ _
  current-Keeps hooks cell (LiveResourceState.active live) reason =
      elim (lookup-cases (phase_ready_data cell.state.phase)) [
        | inr (tag, e) ↦ rw (e, stop_current_live_resource) refl
        | inl (r, e) ↦ rw (e, stop_current_live_resource) (stop-Keeps hooks cell live reason)
      ]

  active-Keeps :
      (hooks : LiveHooks) (cell : LiveCell) (live : LiveResourceState)
      (demand : NodeLiveDemandSnapshot)
      → Keeps cell (
          deliver_active stringify_sources stringify_scopes live_delivery_failed now hooks cell live
            demand)
  unfolding deliver_active restart_live_resource
  active-Keeps hooks cell LiveResourceState.inactive demand = start-Keeps hooks cell demand []
  active-Keeps hooks cell (LiveResourceState.active live) demand =
      if_both (Keeps cell)
        (same_live_demand stringify_sources stringify_scopes live_delivery_failed now live.demand
          demand)
        _ _ (λ e. refl)
        (λ e. elim (Option-cases hooks.update) [
          | inl f ↦
              let halted =
                stop_live_resource stringify_sources stringify_scopes live_delivery_failed now hooks
                  cell live LiveResourceStopReason.demand_changed in
              rw (f) (
                start-Keeps hooks halted.0 demand halted.1
                ∙ stop-Keeps hooks cell live LiveResourceStopReason.demand_changed)
          | inr (hook, f) ↦ rw (f) (update-Keeps hooks hook cell live demand)
        ])

  pub deliver-Keeps :
      (hooks : Option LiveHooks) (cell : LiveCell) (demand : NodeLiveDemandSnapshot)
      → Keeps cell (
          deliver_live_demand stringify_sources stringify_scopes live_delivery_failed now hooks cell
            demand)
  unfolding deliver_live_demand
  deliver-Keeps none cell demand = refl
  deliver-Keeps (some hooks) cell demand = elim (lookup-cases (phase_ready_data cell.state.phase)) [
    | inr (tag, e) ↦ rw (e, deliver_live_demand) refl
    | inl (r, e) ↦ elim (activity-cases (active_live_demand demand)) [
      | inl (d, f) ↦ rw (e, f, deliver_live_demand) (current-Keeps hooks cell r.live_resource _)
      | inr (d, f) ↦ rw (e, f, deliver_live_demand) (active-Keeps hooks cell r.live_resource d)
    ]
  ]
