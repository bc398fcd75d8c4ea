-- ===== src/Liveness/Delivery/History.antt =====
-- The calls of a driver's live hooks in the order that packages/core/src/graph/liveness/index.ts
-- promises, and the live resource that they leave running.
use frond.Shared.{ℕ, ◌≡◌, refl, Bool, true, false, Option, none, some, List, [], ◌∷◌}
use frond.Types.Live.{NodeLiveDemandSnapshot, NodeLiveFailure, LiveResourceStopReason}
use frond.Cell.Phase.{
  ActiveLive, CellPhase, LiveResourceState, CellPhaseReadyLookup, phase_ready_data, map_phase_base,
  map_phase_ready, map_ready_base,
}
use frond.Liveness.Delivery.{
  LiveEvent, started, not_started, updated, not_updated, stopped, LiveCell,
}

abbrev pub live_of_lookup : CellPhaseReadyLookup → LiveResourceState
live_of_lookup (CellPhaseReadyLookup.found r) = r.live_resource
live_of_lookup (CellPhaseReadyLookup.missing tag) = LiveResourceState.inactive

-- What runs for a cell.
abbrev pub live_of : CellPhase → LiveResourceState
live_of phase = live_of_lookup (phase_ready_data phase)

abbrev pub ready_lookup : CellPhaseReadyLookup → Bool
ready_lookup (CellPhaseReadyLookup.found r) = true
ready_lookup (CellPhaseReadyLookup.missing tag) = false

abbrev pub is_ready : CellPhase → Bool
is_ready phase = ready_lookup (phase_ready_data phase)

-- The calls of a driver's hooks that leave this resource running: one is started only when none
-- runs, and what is updated or stopped is the one that runs.
pub data History : List LiveEvent → LiveResourceState → Type 0 where
  nothing : History [] LiveResourceState.inactive
  start :
      {es : List LiveEvent} (live : ActiveLive)
      → History es LiveResourceState.inactive
      → History (started live.generation live.resource ∷ es) (LiveResourceState.active live)
  no_start :
      {es : List LiveEvent} (generation : ℕ)
      → History es LiveResourceState.inactive
      → History (not_started generation ∷ es) LiveResourceState.inactive
  update :
      {es : List LiveEvent} (live : ActiveLive) (demand : NodeLiveDemandSnapshot)
      → History es (LiveResourceState.active live)
      → History
          (updated live.generation live.resource ∷ es)
          (LiveResourceState.active (record live { demand = demand }))
  no_update :
      {es : List LiveEvent} (live : ActiveLive)
      → History es (LiveResourceState.active live)
      → History (not_updated live.generation live.resource ∷ es) (LiveResourceState.active live)
  stop :
      {es : List LiveEvent} (live : ActiveLive) (reason : LiveResourceStopReason)
      → History es (LiveResourceState.active live)
      → History (stopped live.generation live.resource reason ∷ es) LiveResourceState.inactive

-- The resource that the calls leave running is the one that the cell holds.
abbrev pub IsOwned : LiveCell → Type 0
IsOwned cell = History cell.events (live_of cell.state.phase)

pub phase_set :
    (phase : CellPhase) (failure : Option NodeLiveFailure) (live : LiveResourceState)
    → is_ready phase ≡ true
    → let after =
        map_phase_ready
          (map_phase_base phase (λ base. record base { live_failure = failure }))
          (λ r. record r { live_resource = live }) in
      (is_ready after ≡ true) × (live_of after ≡ live)
unfolding phase_ready_data map_phase_base map_phase_ready map_ready_base
phase_set (CellPhase.ready r f) failure live h = (refl, refl)
phase_set (CellPhase.operating r o) failure live h = (refl, refl)
phase_set (CellPhase.invalid error none) failure live h = cc
phase_set (CellPhase.invalid error (some base)) failure live h = cc
phase_set _ failure live h = cc
