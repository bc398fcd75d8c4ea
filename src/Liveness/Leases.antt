-- ===== src/Liveness/Leases.antt =====
-- The callbacks of `cell.state.transition` in acquireNodeLiveLease, rollbackNodeLiveLease and releaseNodeLiveLease of
-- packages/core/src/graph/liveness/index.ts: each gives whether the demand changed, the new demand
-- and the state after.
use frond.Shared.{
  String, ◌≡◌, refl, Bool, true, false, not, ◌&&◌, Option, none, some, List, [], ◌∷◌, ◌++◌, arith,
  Eq, if◌then◌else◌, ◌==◌, string_eq, nat_eq, has, length, keep, beq_refl,
}
use frond.Shared.Int.{ℤ}
use frond.Shared.Sort.{unique}
use frond.Types.Live.{NodeLiveLeaseId, NodeLiveDemandSnapshot, source_eq}
use frond.Cell.Phase.{
  CellLiveLease, CellBase, CellPhase, phase_live_leases, map_phase_base, map_ready_base,
  cell_base_from_ready, phase_base, CellPhaseBaseLookup,
}
use frond.Cell.Demand.{project_live_demand, lease_sources, lease_scope_keys}
use frond.Cell.Transitions.{GraphNodeState}

-- sameProjectedSet on the projected values: a `Set` has each value once.
module _ {A : Type 0} ⦃e : Eq A⦄ where
  unfoldable pub every_has : List A → List A → Bool
  every_has [] values = true
  every_has (x ∷ xs) values = has x values && every_has xs values

  unfoldable pub same_set : List A → List A → Bool
  unfolding every_has
  same_set left right =
      length (unique left) == length (unique right) && every_has (unique left) (unique right)

unfoldable pub same_live_leases_demand : List CellLiveLease → List CellLiveLease → Bool
unfolding same_set
same_live_leases_demand left right =
    same_set (lease_sources left) (lease_sources right)
    && same_set (lease_scope_keys left) (lease_scope_keys right)

abbrev pub with_leases : List CellLiveLease → CellBase → CellBase
with_leases leases base = record base { live_leases = leases }

unfoldable pub set_leases : GraphNodeState → List CellLiveLease → GraphNodeState
set_leases latest leases = record latest {
  phase = map_phase_base latest.phase (with_leases leases);
}

pub record LeaseChange : Type 0 where
  pub changed : Bool
  pub live_demand : NodeLiveDemandSnapshot

abbrev pub is_lease : NodeLiveLeaseId → CellLiveLease → Bool
is_lease lease_id lease = lease.lease_id == lease_id

abbrev pub without : NodeLiveLeaseId → List CellLiveLease → List CellLiveLease
without lease_id leases = keep (λ lease. not (is_lease lease_id lease)) leases

module _ (locale_compare : String → String → ℤ) where
  unfoldable pub acquire_transition : CellLiveLease → GraphNodeState → LeaseChange × GraphNodeState
  unfolding same_live_leases_demand set_leases
  acquire_transition lease latest =
      let latest_live_leases = phase_live_leases latest.phase in
      let live_leases = latest_live_leases ++ lease ∷ [] in
      (
        record {
          changed = not (same_live_leases_demand latest_live_leases live_leases);
          live_demand = project_live_demand locale_compare live_leases;
        },
        set_leases latest live_leases,
      )

  -- `none` for `Missing`, which writes the state back as it is.
  unfoldable pub rollback_transition :
      NodeLiveLeaseId → GraphNodeState → Option LeaseChange × GraphNodeState
  unfolding same_live_leases_demand set_leases
  rollback_transition lease_id latest =
      let latest_live_leases = phase_live_leases latest.phase in
      let live_leases = without lease_id latest_live_leases in
      if length live_leases == length latest_live_leases then (none, latest) else (
        some (record {
          changed = not (same_live_leases_demand latest_live_leases live_leases);
          live_demand = project_live_demand locale_compare live_leases;
        }),
        set_leases latest live_leases,
      )

  unfoldable pub release_transition :
      NodeLiveLeaseId → GraphNodeState → LeaseChange × GraphNodeState
  unfolding same_live_leases_demand set_leases
  release_transition lease_id latest =
      let latest_live_leases = phase_live_leases latest.phase in
      let live_leases = without lease_id latest_live_leases in
      (
        record {
          changed =
              not (length live_leases == length latest_live_leases)
              && not (same_live_leases_demand latest_live_leases live_leases);
          live_demand = project_live_demand locale_compare live_leases;
        },
        set_leases latest live_leases,
      )

-- The identifiers of the leases.
abbrev pub lease_ids : List CellLiveLease → List NodeLiveLeaseId
lease_ids [] = []
lease_ids (l ∷ ls) = l.lease_id ∷ lease_ids ls

pub without-fresh :
    (lease : CellLiveLease) (leases : List CellLiveLease)
    → has lease.lease_id (lease_ids leases) ≡ false
    → without lease.lease_id (leases ++ lease ∷ []) ≡ leases
unfolding has
without-fresh lease [] h = ground (arith, beq_refl lease.lease_id)
without-fresh lease (l ∷ ls) h = ground (arith, h, without-fresh lease ls)

-- Does the phase keep leases at all?
abbrev pub has_base : CellPhase → Bool
has_base phase = elim (phase_base phase) [
  | CellPhaseBaseLookup.found base ↦ true
  | CellPhaseBaseLookup.missing tag ↦ false
]

-- The leases of a cell that has a base are what a transition puts there.
pub leases-set_leases :
    (leases : List CellLiveLease) (phase : CellPhase)
    → has_base phase ≡ true
    → phase_live_leases (map_phase_base phase (with_leases leases)) ≡ leases
unfolding phase_base phase_live_leases map_phase_base map_ready_base cell_base_from_ready
leases-set_leases leases (CellPhase.invalid failure none) h = ground arith
leases-set_leases leases (CellPhase.invalid failure (some base)) h = refl
leases-set_leases leases (CellPhase.evicted reason) h = ground arith
leases-set_leases leases _ h = refl

-- The last of two transitions of the leases is the one that counts.
pub set_leases_twice :
    (leases others : List CellLiveLease) (phase : CellPhase)
    → map_phase_base (map_phase_base phase (with_leases leases)) (with_leases others)
      ≡ map_phase_base phase (with_leases others)
unfolding phase_base phase_live_leases map_phase_base map_ready_base cell_base_from_ready
set_leases_twice leases others (CellPhase.invalid failure none) = refl
set_leases_twice leases others (CellPhase.invalid failure (some base)) = refl
set_leases_twice leases others (CellPhase.evicted reason) = refl
set_leases_twice leases others _ = refl

pub set_leases_same :
    (phase : CellPhase)
    → has_base phase ≡ true
    → map_phase_base phase (with_leases (phase_live_leases phase)) ≡ phase
unfolding phase_base phase_live_leases map_phase_base map_ready_base cell_base_from_ready
set_leases_same (CellPhase.invalid failure none) h = refl
set_leases_same (CellPhase.invalid failure (some base)) h = refl
set_leases_same (CellPhase.evicted reason) h = refl
set_leases_same _ h = refl
