-- ===== src/Liveness/Handlers/Undone.antt =====
-- An acquire of packages/core/src/graph/liveness/index.ts and its rollback.
use frond.Shared.{◌≡◌, ◌⊎◌, true, false, some, List, [], ◌∷◌, ◌++◌, string_eq, nat_eq}
use frond.Types.Live.{NodeId, NodeLiveDemandSnapshot, GraphFailure}
use frond.Cell.Phase.{CellLiveLease, phase_live_leases}
use frond.Cell.Demand.{project_live_demand, active_live_demand}
use frond.Liveness.Leases.{set_leases, same_live_leases_demand}
use frond.Liveness.Delivery.{LiveHooks, LiveCell, deliver_live_demand}
use frond.Liveness.Delivery.History.{IsOwned, is_ready, live_of}
use frond.Liveness.Delivery.Owned.{Delivered}
use frond.Liveness.Handlers.{
  LeaseHost, Notice, changed, NodeLiveLeaseResult, lease_held, rollback_notices,
}

module _ (host : LeaseHost) (hooks : LiveHooks) where
  abbrev delivery : LiveCell → NodeLiveDemandSnapshot → LiveCell × List GraphFailure
  delivery cell demand =
      deliver_live_demand host.stringify_sources host.stringify_scopes host.live_delivery_failed
        host.now (some hooks) cell demand

  abbrev demand_of : List CellLiveLease → NodeLiveDemandSnapshot
  demand_of leases = project_live_demand host.locale_compare leases

  -- The resource for a demand, with the failures.
  abbrev Serves : NodeLiveDemandSnapshot → List GraphFailure → LiveCell → Type 0
  Serves demand failures cell =
      Delivered host.stringify_sources host.stringify_scopes host.live_delivery_failed host.now
        (active_live_demand demand) failures (live_of cell.state.phase)

  -- A cell that is ready, whose resource is owned and whose leases are these.
  abbrev IsHeld : List CellLiveLease → LiveCell → Type 0
  IsHeld leases cell =
      (is_ready cell.state.phase ≡ true)
      × IsOwned cell
      × (phase_live_leases cell.state.phase ≡ leases)

  put_leases : LiveCell → List CellLiveLease → LiveCell
  unfolding set_leases
  put_leases cell leases = record cell { state = set_leases cell.state leases }

  -- The demand of the leases is the same with the lease, or its delivery is done.
  abbrev Held :
      NodeId
      → CellLiveLease
      → List CellLiveLease
      → LiveCell
      → LiveCell × List Notice × NodeLiveLeaseResult
      → Type 0
  Held node_id lease leases cell after =
      IsHeld (leases ++ lease ∷ []) after.0
      × (((same_live_leases_demand leases (leases ++ lease ∷ []) ≡ true)
            × (after ≡ (
              put_leases cell (leases ++ lease ∷ []),
              [],
              lease_held node_id lease.lease_id (demand_of (leases ++ lease ∷ [])) false [],
            )))
          ⊎ ((same_live_leases_demand leases (leases ++ lease ∷ []) ≡ false)
              × (failures : List GraphFailure) × (after.1 ≡ changed node_id ∷ [])
              × (after.2
                  ≡ lease_held node_id lease.lease_id (demand_of (leases ++ lease ∷ [])) true
                      failures)
              × Serves (demand_of (leases ++ lease ∷ [])) failures after.0))

  -- A lease that is rolled back: quiet, where the demand is the same without it, or delivered.
  abbrev Undone :
      NodeId → CellLiveLease → List CellLiveLease → LiveCell → LiveCell × List Notice → Type 0
  Undone node_id lease leases cell back =
      IsHeld leases back.0
      × (((same_live_leases_demand (leases ++ lease ∷ []) leases ≡ true)
            × (back ≡ (put_leases cell leases, [])))
          ⊎ ((same_live_leases_demand (leases ++ lease ∷ []) leases ≡ false)
              × (failures : List GraphFailure) × (back.1
                  ≡ rollback_notices node_id (demand_of leases) failures)
              × Serves (demand_of leases) failures back.0))

  -- What an acquire and a rollback come to.
  abbrev pub IsTrip :
      NodeId
      → CellLiveLease
      → List CellLiveLease
      → LiveCell
      → LiveCell × List Notice × NodeLiveLeaseResult
      → LiveCell × List Notice
      → Type 0
  IsTrip node_id lease leases cell acquired back =
      let grown = leases ++ lease ∷ [] in
      IsHeld grown acquired.0
      × IsHeld leases back.0
      × (((same_live_leases_demand leases grown ≡ true)
            × (acquired.1 ≡ [])
            × (acquired.2 ≡ lease_held node_id lease.lease_id (demand_of grown) false [])
            × (back ≡ (cell, [])))
          ⊎ ((same_live_leases_demand leases grown ≡ false)
              × (((failures : List GraphFailure) × (acquired.1 ≡ changed node_id ∷ [])
                  × (acquired.2 ≡ lease_held node_id lease.lease_id (demand_of grown) true failures)
                  × Serves (demand_of grown) failures acquired.0))
              × (((failures : List GraphFailure) × (back.1
                    ≡ rollback_notices node_id (demand_of leases) failures)
                  × Serves (demand_of leases) failures back.0))))
