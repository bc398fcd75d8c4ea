-- ===== src/Liveness/Handlers/Transitions.antt =====
-- What the transitions of packages/core/src/graph/liveness/index.ts do to the leases of a phase.
use frond.Shared.{
  String, ◌≡◌, refl, sym, true, false, not, none, some, List, [], ◌∷◌, ◌++◌, has, string_eq,
  length-append, arith,
}
use frond.Shared.Int.{ℤ}
use frond.Cell.Phase.{
  CellLiveLease, CellPhase, phase_live_leases, phase_base, phase_ready_data, map_phase_base,
  map_ready_base,
}
use frond.Cell.Demand.{project_live_demand}
use frond.Cell.Transitions.{GraphNodeState}
use frond.Liveness.Leases.{
  lease_ids, without-fresh, with_leases, set_leases, has_base, same_live_leases_demand,
  rollback_transition, release_transition,
}
use frond.Liveness.Changes.{same_live_leases_demand_iff}
use frond.Liveness.Delivery.History.{is_ready, live_of}

pub ready-has_base : (phase : CellPhase) → is_ready phase ≡ true → has_base phase ≡ true
unfolding phase_ready_data phase_base
ready-has_base (CellPhase.ready r f) h = refl
ready-has_base (CellPhase.operating r o) h = refl
ready-has_base (CellPhase.invalid error none) h = cc
ready-has_base (CellPhase.invalid error (some base)) h = refl
ready-has_base (CellPhase.evicted reason) h = cc
ready-has_base _ h = refl

-- Setting the leases of a phase leaves what runs for it.
pub live-set_leases :
    (leases : List CellLiveLease) (phase : CellPhase)
    → (live_of (map_phase_base phase (with_leases leases)) ≡ live_of phase)
      × (is_ready (map_phase_base phase (with_leases leases)) ≡ is_ready phase)
unfolding phase_ready_data map_phase_base map_ready_base
live-set_leases leases (CellPhase.invalid error none) = (refl, refl)
live-set_leases leases (CellPhase.invalid error (some base)) = (refl, refl)
live-set_leases leases _ = (refl, refl)

pub same_demand_sym :
    (left right : List CellLiveLease)
    → same_live_leases_demand left right ≡ same_live_leases_demand right left
same_demand_sym left right =
    let there = same_live_leases_demand_iff left right in
    let back = same_live_leases_demand_iff right left in
    ground (
      arith,
      (λ (h : same_live_leases_demand left right ≡ true).
          back.1 (λ s. sym ((there.0 h).0 s), λ k. sym ((there.0 h).1 k))),
      (λ (h : same_live_leases_demand right left ≡ true).
          there.1 (λ s. sym ((back.0 h).0 s), λ k. sym ((back.0 h).1 k))),
    )

module _ (locale_compare : String → String → ℤ) where
  pub rollback_transition_lem :
      (lease : CellLiveLease) (leases : List CellLiveLease) (state : GraphNodeState)
      → phase_live_leases state.phase ≡ leases ++ lease ∷ []
      → has lease.lease_id (lease_ids leases) ≡ false
      → rollback_transition locale_compare lease.lease_id state ≡ (
        some (record {
          changed = not (same_live_leases_demand (leases ++ lease ∷ []) leases);
          live_demand = project_live_demand locale_compare leases;
        }),
        set_leases state leases,
      )
  unfolding rollback_transition set_leases
  rollback_transition_lem lease leases state same fresh =
      let longer = length-append leases (lease ∷ []) in
      rw (same, without-fresh lease leases fresh) (ground (arith, longer))

  pub release_transition_lem :
      (lease : CellLiveLease) (leases : List CellLiveLease) (state : GraphNodeState)
      → phase_live_leases state.phase ≡ leases ++ lease ∷ []
      → has lease.lease_id (lease_ids leases) ≡ false
      → release_transition locale_compare lease.lease_id state ≡ (
        record {
          changed = not (same_live_leases_demand (leases ++ lease ∷ []) leases);
          live_demand = project_live_demand locale_compare leases;
        },
        set_leases state leases,
      )
  unfolding release_transition set_leases
  release_transition_lem lease leases state same fresh =
      let longer = length-append leases (lease ∷ []) in
      rw (same, without-fresh lease leases fresh) (ground (arith, longer))
