-- ===== src/Cell/Bases.antt =====
-- The base of a cell under mapPhaseBase of packages/core/src/graph/cell/cellPhase.ts.
use frond.Shared.{◌≡◌, refl, none, some, arith}
use frond.Cell.Phase.{
  CellBase, CellPhase, CellPhaseBaseLookup, CellPhaseReadyLookup, phase_tag, phase_base,
  phase_ready_data, map_phase_base, map_ready_base, cell_base_from_ready, ready, operating, invalid,
  ReadyData,
}

abbrev pub map_lookup : (CellBase → CellBase) → CellPhaseBaseLookup → CellPhaseBaseLookup
map_lookup f (CellPhaseBaseLookup.found base) = CellPhaseBaseLookup.found (f base)
map_lookup f (CellPhaseBaseLookup.missing tag) = CellPhaseBaseLookup.missing tag

abbrev pub map_ready_lookup : (ReadyData → ReadyData) → CellPhaseReadyLookup → CellPhaseReadyLookup
map_ready_lookup f (CellPhaseReadyLookup.found r) = CellPhaseReadyLookup.found (f r)
map_ready_lookup f (CellPhaseReadyLookup.missing tag) = CellPhaseReadyLookup.missing tag

-- A base whose validity is the one of a ready cell stays one.
base_from_mapped :
    (r : ReadyData) (f : CellBase → CellBase)
    → (f (cell_base_from_ready r)).result_validity ≡ some r.result_validity
    → cell_base_from_ready (map_ready_base r f) ≡ f (cell_base_from_ready r)
unfolding cell_base_from_ready map_ready_base
base_from_mapped r f h = ground arith

-- An update of the base that leaves the validity alone changes the base of every phase that has one
-- and nothing else: the phase keeps its kind, a phase without a base stays without, and the ready
-- data changes only in what it shares with the base.
pub phase_base-map_phase_base :
    (phase : CellPhase) (f : CellBase → CellBase)
    → ((base : CellBase) → (f base).result_validity ≡ base.result_validity)
    → (phase_base (map_phase_base phase f) ≡ map_lookup f (phase_base phase))
      × (phase_tag (map_phase_base phase f) ≡ phase_tag phase)
      × (phase_ready_data (map_phase_base phase f)
          ≡ map_ready_lookup (λ r. map_ready_base r f) (phase_ready_data phase))
unfolding phase_base phase_ready_data map_phase_base
phase_base-map_phase_base (ready r failure) f h =
    (ground (arith, base_from_mapped r f (h (cell_base_from_ready r))), refl, refl)
phase_base-map_phase_base (operating r operation) f h =
    (ground (arith, base_from_mapped r f (h (cell_base_from_ready r))), refl, refl)
phase_base-map_phase_base (invalid error none) f h = (refl, refl, refl)
phase_base-map_phase_base (invalid error (some base)) f h = (refl, refl, refl)
phase_base-map_phase_base _ f h = (refl, refl, refl)
