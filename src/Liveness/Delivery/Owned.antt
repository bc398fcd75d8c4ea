-- ===== src/Liveness/Delivery/Owned.antt =====
-- The live resource over deliverLiveDemand of packages/core/src/graph/liveness/index.ts.
use frond.Shared.{
  String, ◌≡◌, refl, ap, ◌⊎◌, inl, inr, Bool, true, some, List, [], ◌∷◌, ◌++◌, arith, if_both,
  Option-cases,
}
use frond.Shared.Int.{ℤ}
use frond.Types.Value.{Value}
use frond.Types.Live.{NodeLiveSource, NodeLiveDemandSnapshot, LiveResourceStopReason, GraphFailure}
use frond.Cell.Phase.{ActiveLive, LiveResourceState, CellPhaseReadyLookup, phase_ready_data}
use frond.Cell.Demand.{DemandActivity, active_live_demand, nonempty}
use frond.Liveness.Delivery.{
  Stage, Answer, LiveHooks, started, not_started, updated, not_updated, stopped, LiveCell,
  same_live_demand, set_live_resource_state, noting, draw_generation, stop_live_resource,
  start_live_resource, update_live_resource, stop_current_live_resource, deliver_active,
  deliver_live_demand, restart_live_resource,
}
use frond.Liveness.Delivery.History.{live_of_lookup, live_of, is_ready, History, IsOwned, phase_set}

module _ (stringify_sources : List NodeLiveSource → String) (stringify_scopes : List Value → String)
    (live_delivery_failed : Stage → Value → GraphFailure) (now : ℤ) where
  abbrev same : NodeLiveDemandSnapshot → NodeLiveDemandSnapshot → Bool
  same = same_live_demand stringify_sources stringify_scopes live_delivery_failed now

  set_lem :
      (cell : LiveCell) (live : LiveResourceState) (failures : List GraphFailure)
      → is_ready cell.state.phase ≡ true
      → History cell.events live
      → let after =
          set_live_resource_state stringify_sources stringify_scopes live_delivery_failed now cell
            live failures in
        IsOwned after × (is_ready after.state.phase ≡ true) × (live_of after.state.phase ≡ live)
  unfolding set_live_resource_state
  set_lem cell live failures r h =
      let (k, e) = phase_set cell.state.phase _ live r in (rw e h, k, e)

  -- What a delivery leaves for an active demand: a resource that runs for it, or failures.
  pub data Settled (demand : NodeLiveDemandSnapshot) (failures : List GraphFailure)
      : LiveResourceState → Type 0 where
    running :
        (live : ActiveLive)
        → (same live.demand demand ≡ true) ⊎ (live.demand ≡ demand)
        → Settled demand failures (LiveResourceState.active live)
    reported : nonempty failures ≡ true → Settled demand failures LiveResourceState.inactive

  abbrev Outcome : NodeLiveDemandSnapshot → LiveCell × List GraphFailure → Type 0
  Outcome demand (after, failures) =
      IsOwned after
      × (is_ready after.state.phase ≡ true)
      × Settled demand failures (live_of after.state.phase)

  nonempty-snoc : (fs : List GraphFailure) (f : GraphFailure) → nonempty (fs ++ f ∷ []) ≡ true
  nonempty-snoc [] f = refl
  nonempty-snoc (g ∷ fs) f = refl

  start_lem :
      (hooks : LiveHooks) (cell : LiveCell) (demand : NodeLiveDemandSnapshot)
      (previous : List GraphFailure) (answer : Answer Value)
      → hooks.start cell.state.next_live_generation demand ≡ answer
      → is_ready cell.state.phase ≡ true
      → History cell.events LiveResourceState.inactive
      → Outcome demand (
          start_live_resource stringify_sources stringify_scopes live_delivery_failed now hooks cell
            demand previous)
  unfolding start_live_resource
  start_lem hooks cell demand previous (Answer.ok resource) e r h =
      let live : ActiveLive = record {
        generation = cell.state.next_live_generation;
        demand = demand;
        resource = resource;
      } in
      let (owned, ready, after) =
        set_lem (noting (draw_generation cell) (started cell.state.next_live_generation resource))
          (LiveResourceState.active live) previous r (History.start live h) in
      rw (e, start_live_resource) (owned, ready, rw after (Settled.running live (inr refl)))
  start_lem hooks cell demand previous (Answer.failed cause) e r h =
      let failures = previous ++ live_delivery_failed Stage.start cause ∷ [] in
      let (owned, ready, after) =
        set_lem (noting (draw_generation cell) (not_started cell.state.next_live_generation))
          LiveResourceState.inactive failures r
          (History.no_start cell.state.next_live_generation h) in
      rw (e, start_live_resource)
        (
          owned,
          ready,
          rw after
              (Settled.reported (nonempty-snoc previous (live_delivery_failed Stage.start cause))),
        )

  stop_lem :
      (hooks : LiveHooks) (cell : LiveCell) (live : ActiveLive) (reason : LiveResourceStopReason)
      (answer : Answer (Unit {0}))
      → hooks.stop live.resource reason ≡ answer
      → is_ready cell.state.phase ≡ true
      → History cell.events (LiveResourceState.active live)
      → let after =
          (stop_live_resource stringify_sources stringify_scopes live_delivery_failed now hooks cell
            live reason).0 in
        IsOwned after
        × (is_ready after.state.phase ≡ true)
        × (live_of after.state.phase ≡ LiveResourceState.inactive)
  unfolding stop_live_resource
  stop_lem hooks cell live reason (Answer.ok u) e r h =
      rw (e, stop_live_resource)
        (set_lem (noting cell (stopped live.generation live.resource reason))
          LiveResourceState.inactive [] r (History.stop live reason h))
  stop_lem hooks cell live reason (Answer.failed cause) e r h =
      rw (e, stop_live_resource)
        (set_lem (noting cell (stopped live.generation live.resource reason))
          LiveResourceState.inactive (live_delivery_failed Stage.stop cause ∷ []) r
          (History.stop live reason h))

  -- A stop, and a start on what it leaves.
  restart_lem :
      (hooks : LiveHooks) (cell : LiveCell) (live : ActiveLive) (reason : LiveResourceStopReason)
      (demand : NodeLiveDemandSnapshot) (previous : List GraphFailure → List GraphFailure)
      → is_ready cell.state.phase ≡ true
      → History cell.events (LiveResourceState.active live)
      → let (after, failures) =
          stop_live_resource stringify_sources stringify_scopes live_delivery_failed now hooks cell
            live reason in
        Outcome demand (
          start_live_resource stringify_sources stringify_scopes live_delivery_failed now hooks
            after demand
            (previous failures))
  restart_lem hooks cell live reason demand previous r h =
      let (owned, ready, off) = stop_lem hooks cell live reason _ refl r h in
      start_lem hooks _ demand _ _ refl ready (rw (← off) owned)

  update_lem :
      (hooks : LiveHooks) (hook : Value → NodeLiveDemandSnapshot → Answer (Unit {0}))
      (cell : LiveCell) (live : ActiveLive) (demand : NodeLiveDemandSnapshot)
      (answer : Answer (Unit {0}))
      → hook live.resource demand ≡ answer
      → is_ready cell.state.phase ≡ true
      → History cell.events (LiveResourceState.active live)
      → Outcome demand (
          update_live_resource stringify_sources stringify_scopes live_delivery_failed now hooks
            hook cell live demand)
  unfolding update_live_resource
  update_lem hooks hook cell live demand (Answer.ok u) e r h =
      let (owned, ready, after) =
        set_lem (noting cell (updated live.generation live.resource))
          (LiveResourceState.active (record live { demand = demand })) [] r
          (History.update live demand h) in
      rw (e, update_live_resource) (owned, ready, rw after (Settled.running _ (inr refl)))
  update_lem hooks hook cell live demand (Answer.failed cause) e r h =
      rw (e, update_live_resource)
        (restart_lem hooks (noting cell (not_updated live.generation live.resource)) live
          LiveResourceStopReason.update_failed demand
          (λ failures. live_delivery_failed Stage.update cause ∷ failures) r
          (History.no_update live h))

  active_lem :
      (hooks : LiveHooks) (cell : LiveCell) (live : LiveResourceState)
      (demand : NodeLiveDemandSnapshot)
      → live_of cell.state.phase ≡ live
      → is_ready cell.state.phase ≡ true
      → History cell.events live
      → Outcome demand (
          deliver_active stringify_sources stringify_scopes live_delivery_failed now hooks cell live
            demand)
  unfolding deliver_active restart_live_resource
  active_lem hooks cell LiveResourceState.inactive demand l r h =
      start_lem hooks cell demand [] _ refl r h
  active_lem hooks cell (LiveResourceState.active live) demand l r h =
      if_both (Outcome demand) (same live.demand demand) _ _
        (λ e. (rw l h, r, rw l (Settled.running live (inl e))))
        (λ e. elim (Option-cases hooks.update) [
          | inl u ↦
              rw (u, deliver_active)
                (restart_lem hooks cell live LiveResourceStopReason.demand_changed demand (λ fs. fs)
                  r h)
          | inr (hook, u) ↦
              rw (u, deliver_active) (update_lem hooks hook cell live demand _ refl r h)
        ])

  -- What is to run after a delivery.
  abbrev pub Delivered : DemandActivity → List GraphFailure → LiveResourceState → Type 0
  Delivered (DemandActivity.inactive demand) failures live = live ≡ LiveResourceState.inactive
  Delivered (DemandActivity.active demand) failures live = Settled demand failures live

  current_lem :
      (hooks : LiveHooks) (cell : LiveCell) (live : LiveResourceState)
      → is_ready cell.state.phase ≡ true
      → History cell.events live
      → let after =
          (stop_current_live_resource stringify_sources stringify_scopes live_delivery_failed now
            hooks cell live LiveResourceStopReason.demand_inactive).0 in
        IsOwned after
        × (is_ready after.state.phase ≡ true)
        × (live_of after.state.phase ≡ LiveResourceState.inactive)
  unfolding stop_current_live_resource
  current_lem hooks cell LiveResourceState.inactive r h =
      set_lem cell LiveResourceState.inactive [] r h
  current_lem hooks cell (LiveResourceState.active live) r h =
      found (phase_ready_data cell.state.phase) refl
        (stop_lem hooks cell live LiveResourceStopReason.demand_inactive _ refl r h)
    where
      found :
          (lookup : CellPhaseReadyLookup)
          → phase_ready_data cell.state.phase ≡ lookup
          → let after =
              (stop_live_resource stringify_sources stringify_scopes live_delivery_failed now hooks
                cell live LiveResourceStopReason.demand_inactive).0 in
            IsOwned after
              × (is_ready after.state.phase ≡ true)
              × (live_of after.state.phase ≡ LiveResourceState.inactive)
            → let after =
                (stop_current_live_resource stringify_sources stringify_scopes live_delivery_failed
                  now hooks cell
                  (LiveResourceState.active live)
                  LiveResourceStopReason.demand_inactive).0 in
              IsOwned after
              × (is_ready after.state.phase ≡ true)
              × (live_of after.state.phase ≡ LiveResourceState.inactive)
      found (CellPhaseReadyLookup.found ready) e k = rw (e, stop_current_live_resource) k
      found (CellPhaseReadyLookup.missing tag) e k = ground (arith, e, r)

  -- Delivering a demand to a ready cell keeps the resource owned: if the hooks' calls so far leave
  -- running exactly what the cell holds, they still do, so that no resource is started while
  -- another one runs, none is stopped that does not run, and none is lost, whatever the hooks answer.
  -- An inactive demand leaves no resource; an active one leaves a resource that runs for it, or for
  -- one with the same text, or none, and then failures are reported.
  pub deliver_live_demand-IsOwned :
      (hooks : LiveHooks) (cell : LiveCell) (demand : NodeLiveDemandSnapshot)
      → is_ready cell.state.phase ≡ true
      → IsOwned cell
      → let (after, failures) =
          deliver_live_demand stringify_sources stringify_scopes live_delivery_failed now
            (some hooks)
            cell
            demand in
        IsOwned after
        × (is_ready after.state.phase ≡ true)
        × Delivered (active_live_demand demand) failures (live_of after.state.phase)
  unfolding deliver_live_demand
  deliver_live_demand-IsOwned hooks cell demand r h =
      by_lookup (phase_ready_data cell.state.phase) (active_live_demand demand) refl refl
    where
      by_lookup :
          (lookup : CellPhaseReadyLookup) (activity : DemandActivity)
          → phase_ready_data cell.state.phase ≡ lookup
          → active_live_demand demand ≡ activity
          → let (after, failures) =
              deliver_live_demand stringify_sources stringify_scopes live_delivery_failed now
                (some hooks)
                cell
                demand in
            IsOwned after
            × (is_ready after.state.phase ≡ true)
            × Delivered (active_live_demand demand) failures (live_of after.state.phase)
      by_lookup (CellPhaseReadyLookup.missing tag) activity e a = ground (arith, e, r)
      by_lookup (CellPhaseReadyLookup.found ready) (DemandActivity.inactive d) e a =
          let lives : live_of cell.state.phase ≡ ready.live_resource = ap live_of_lookup e in
          rw (e, a, deliver_live_demand)
            (current_lem hooks cell ready.live_resource r (rw (← lives) h))
      by_lookup (CellPhaseReadyLookup.found ready) (DemandActivity.active d) e a =
          let lives : live_of cell.state.phase ≡ ready.live_resource = ap live_of_lookup e in
          rw (e, a, deliver_live_demand)
            (active_lem hooks cell ready.live_resource d lives r (rw (← lives) h))
