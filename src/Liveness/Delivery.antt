-- ===== src/Liveness/Delivery.antt =====
-- deliverLiveDemand of packages/core/src/graph/liveness/index.ts with what it calls. The driver's
-- hooks are parameters, as is `JSON.stringify` on the two lists of a demand; a hook either succeeds,
-- or fails with a cause, which may be that its bound passed. The calls of the hooks are kept as a
-- list of events, the last one first. Interrupts of a delivery are left out.
pub mod History
pub mod Owned
use frond.Shared.{
  ℕ, zero, suc, ◌+◌, String, Bool, true, false, ◌&&◌, Option, none, some, List, [], ◌∷◌, ◌++◌,
  if◌then◌else◌, ◌==◌, string_eq,
}
use frond.Shared.Int.{ℤ}
use frond.Types.Value.{Value}
use frond.Types.Live.{
  NodeId, NodeLiveSource, NodeLiveDemandSnapshot, NodeLiveFailure, LiveResourceStopReason,
  GraphFailure,
}
use frond.Cell.Phase.{
  ActiveLive, LiveResourceState, CellPhaseReadyLookup, phase_ready_data, map_phase_base,
  map_phase_ready,
}
use frond.Cell.Demand.{DemandActivity, active_live_demand}
use frond.Cell.Transitions.{GraphNodeState}

pub data Stage : Type 0 where
  start update stop : Stage

pub data Answer (A : Type 0) : Type 0 where
  ok : A → Answer A
  failed : Value → Answer A

-- The hooks of a driver; `update` may be missing, and so may all of them.
pub record LiveHooks : Type 0 where
  pub start : ℕ → NodeLiveDemandSnapshot → Answer Value
  pub update : Option (Value → NodeLiveDemandSnapshot → Answer (Unit {0}))
  pub stop : Value → LiveResourceStopReason → Answer (Unit {0})

pub data LiveEvent : Type 0 where
  started : ℕ → Value → LiveEvent
  not_started : ℕ → LiveEvent
  updated : ℕ → Value → LiveEvent
  not_updated : ℕ → Value → LiveEvent
  stopped : ℕ → Value → LiveResourceStopReason → LiveEvent

-- The cell and the calls so far.
pub record LiveCell : Type 0 where
  pub state : GraphNodeState
  pub events : List LiveEvent

live_failure_from_failures : ℤ → List GraphFailure → Option NodeLiveFailure
live_failure_from_failures now [] = none
live_failure_from_failures now (f ∷ fs) = some (record { failures = f ∷ fs; at = now })

abbrev pub noting : LiveCell → LiveEvent → LiveCell
noting cell event = record cell { events = event ∷ cell.events }

-- The next generation is drawn before the hook is called.
abbrev pub draw_generation : LiveCell → LiveCell
draw_generation cell = record cell {
  state = record cell.state { next_live_generation = cell.state.next_live_generation + 1 };
}

module _ (stringify_sources : List NodeLiveSource → String) (stringify_scopes : List Value → String)
    (live_delivery_failed : Stage → Value → GraphFailure) (now : ℤ) where
  unfoldable pub same_live_demand : NodeLiveDemandSnapshot → NodeLiveDemandSnapshot → Bool
  same_live_demand left right =
      stringify_sources left.sources == stringify_sources right.sources
      && stringify_scopes left.scopes == stringify_scopes right.scopes

  unfoldable pub set_live_resource_state :
      LiveCell → LiveResourceState → List GraphFailure → LiveCell
  unfolding live_failure_from_failures
  set_live_resource_state cell live_resource failures =
      let live_failure = live_failure_from_failures now failures in
      record cell {
        state = record cell.state {
          phase =
              map_phase_ready
                (map_phase_base cell.state.phase
                  (λ base. record base { live_failure = live_failure }))
                (λ r. record r { live_resource = live_resource });
        };
      }

  unfoldable pub stop_live_resource :
      LiveHooks → LiveCell → ActiveLive → LiveResourceStopReason → LiveCell × List GraphFailure
  unfolding set_live_resource_state
  stop_live_resource hooks cell live reason =
      let stopping = noting cell (stopped live.generation live.resource reason) in
      elim (hooks.stop live.resource reason) [
        | ok u ↦ (set_live_resource_state stopping LiveResourceState.inactive [], [])
        | failed cause ↦
            let failures = live_delivery_failed Stage.stop cause ∷ [] in
            (set_live_resource_state stopping LiveResourceState.inactive failures, failures)
      ]

  unfoldable pub start_live_resource :
      LiveHooks
      → LiveCell
      → NodeLiveDemandSnapshot
      → List GraphFailure
      → LiveCell × List GraphFailure
  unfolding set_live_resource_state
  start_live_resource hooks cell demand previous_failures =
      let generation = cell.state.next_live_generation in
      elim (hooks.start generation demand) [
        | ok resource ↦ (
          set_live_resource_state (noting (draw_generation cell) (started generation resource))
              (LiveResourceState.active
                (record { generation = generation; demand = demand; resource = resource }))
              previous_failures,
          previous_failures,
        )
        | failed cause ↦
            let failures = previous_failures ++ live_delivery_failed Stage.start cause ∷ [] in
            (
              set_live_resource_state (noting (draw_generation cell) (not_started generation))
                  LiveResourceState.inactive failures,
              failures,
            )
      ]

  -- An update that fails stops the resource and starts one again, once.
  unfoldable pub update_live_resource :
      LiveHooks
      → (Value → NodeLiveDemandSnapshot → Answer (Unit {0}))
      → LiveCell
      → ActiveLive
      → NodeLiveDemandSnapshot
      → LiveCell × List GraphFailure
  unfolding set_live_resource_state stop_live_resource start_live_resource
  update_live_resource hooks update_hook cell live demand =
      elim (update_hook live.resource demand) [
        | ok u ↦ (
          set_live_resource_state (noting cell (updated live.generation live.resource))
              (LiveResourceState.active (record live { demand = demand })) [],
          [],
        )
        | failed cause ↦
            let (after, stop_failures) =
              stop_live_resource hooks (noting cell (not_updated live.generation live.resource))
                live LiveResourceStopReason.update_failed in
            start_live_resource hooks after demand
              (live_delivery_failed Stage.update cause ∷ stop_failures)
      ]

  -- The resource of a ready cell, where the demand is not active.
  unfoldable pub stop_current_live_resource :
      LiveHooks
      → LiveCell
      → LiveResourceState
      → LiveResourceStopReason
      → LiveCell × List GraphFailure
  unfolding set_live_resource_state stop_live_resource
  stop_current_live_resource hooks cell LiveResourceState.inactive reason =
      (set_live_resource_state cell LiveResourceState.inactive [], [])
  stop_current_live_resource hooks cell (LiveResourceState.active live) reason =
      elim (phase_ready_data cell.state.phase) [
        | CellPhaseReadyLookup.missing tag ↦ (cell, [])
        | CellPhaseReadyLookup.found r ↦ stop_live_resource hooks cell live reason
      ]

  unfoldable pub restart_live_resource :
      LiveHooks → LiveCell → ActiveLive → NodeLiveDemandSnapshot → LiveCell × List GraphFailure
  unfolding stop_live_resource start_live_resource
  restart_live_resource hooks cell live demand =
      let (after, stop_failures) =
        stop_live_resource hooks cell live LiveResourceStopReason.demand_changed in
      start_live_resource hooks after demand stop_failures

  -- An active demand, on what runs now.
  unfoldable pub deliver_active :
      LiveHooks
      → LiveCell
      → LiveResourceState
      → NodeLiveDemandSnapshot
      → LiveCell × List GraphFailure
  unfolding same_live_demand update_live_resource restart_live_resource
  deliver_active hooks cell LiveResourceState.inactive demand =
      start_live_resource hooks cell demand []
  deliver_active hooks cell (LiveResourceState.active live) demand =
      if same_live_demand live.demand demand then (cell, []) else elim hooks.update [
        | none ↦ restart_live_resource hooks cell live demand
        | some update_hook ↦ update_live_resource hooks update_hook cell live demand
      ]

  unfoldable pub deliver_live_demand :
      Option LiveHooks → LiveCell → NodeLiveDemandSnapshot → LiveCell × List GraphFailure
  unfolding stop_current_live_resource deliver_active
  deliver_live_demand none cell next_demand = (cell, [])
  deliver_live_demand (some hooks) cell next_demand = elim (phase_ready_data cell.state.phase) [
    | CellPhaseReadyLookup.missing tag ↦ (cell, [])
    | CellPhaseReadyLookup.found r ↦ elim (active_live_demand next_demand) [
      | DemandActivity.inactive demand ↦
          stop_current_live_resource hooks cell r.live_resource
            LiveResourceStopReason.demand_inactive
      | DemandActivity.active demand ↦ deliver_active hooks cell r.live_resource demand
    ]
  ]
