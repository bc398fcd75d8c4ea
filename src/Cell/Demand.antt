-- ===== src/Cell/Demand.antt =====
-- projectLiveDemand and activeLiveDemand of packages/core/src/graph/cell/cellPhase.ts: the demand
-- that a cell's leases add up to. `String.prototype.localeCompare` is the parameter
-- `locale_compare`; nothing is assumed of it.
use frond.Shared.{
  String, ◌≡◌, refl, Bool, true, false, ◌&&◌, not, List, [], ◌∷◌, map, arith, ltb, length, has,
  if◌then◌else◌, string_eq,
}
use frond.Shared.Int.{ℤ, pos, leb_ℤ}
use frond.Shared.Sort.{sort_by, unique, unique_from, has-eq}
use frond.Types.Value.{Value}
use frond.Types.Live.{
  NodeLiveSource, mobx, manual, NodeLiveScopeKey, NodeLiveDemandSnapshot, source_eq, source_before,
}
use frond.Cell.Phase.{CellLiveLease}

abbrev pub inactive_live_demand : NodeLiveDemandSnapshot
inactive_live_demand = record { is_live = false; sources = []; scopes = [] }

-- The `Map` from scope keys to scopes, in insertion order; the first lease of a key gives the scope.
pub scopes_by_key :
    List (NodeLiveScopeKey × Value) → List CellLiveLease → List (NodeLiveScopeKey × Value)
scopes_by_key seen [] = []
scopes_by_key seen (lease ∷ leases) =
    let rest = scopes_by_key ((lease.scope_key, lease.scope) ∷ seen) leases in
    let again = scopes_by_key seen leases in
    if has lease.scope_key (map (λ e. e.0) seen)
    then again
    else (lease.scope_key, lease.scope) ∷ rest

abbrev pub lease_sources : List CellLiveLease → List NodeLiveSource
lease_sources [] = []
lease_sources (l ∷ ls) = l.source ∷ lease_sources ls

abbrev pub lease_scope_keys : List CellLiveLease → List NodeLiveScopeKey
lease_scope_keys [] = []
lease_scope_keys (l ∷ ls) = l.scope_key ∷ lease_scope_keys ls

abbrev entry_scopes : List (NodeLiveScopeKey × Value) → List Value
entry_scopes [] = []
entry_scopes ((k, scope) ∷ es) = scope ∷ entry_scopes es

-- `demand.sources.length > 0`.
abbrev pub nonempty {ℓ} : {A : Type ℓ} → List A → Bool
nonempty [] = false
nonempty (x ∷ xs) = true

module _ (locale_compare : String → String → ℤ) where
  entry_before : (NodeLiveScopeKey × Value) → (NodeLiveScopeKey × Value) → Bool
  entry_before left right = leb_ℤ (locale_compare left.0 right.0) (pos 0)

  unfoldable pub collected_demand : List CellLiveLease → NodeLiveDemandSnapshot
  unfolding entry_before scopes_by_key
  collected_demand leases =
      let entries = scopes_by_key [] leases in
      record {
        is_live = ltb 0 (length entries);
        sources = sort_by source_before (unique (lease_sources leases));
        scopes = entry_scopes (sort_by entry_before entries);
      }

  unfoldable pub project_live_demand : List CellLiveLease → NodeLiveDemandSnapshot
  unfolding collected_demand
  project_live_demand [] = inactive_live_demand
  project_live_demand (lease ∷ []) = record {
    is_live = true;
    sources = lease.source ∷ [];
    scopes = lease.scope ∷ [];
  }
  project_live_demand (lease ∷ other ∷ leases) = collected_demand (lease ∷ other ∷ leases)

pub data DemandActivity : Type 0 where
  active inactive : NodeLiveDemandSnapshot → DemandActivity

unfoldable pub active_live_demand : NodeLiveDemandSnapshot → DemandActivity
active_live_demand demand =
    if demand.is_live && nonempty demand.sources && nonempty demand.scopes
    then DemandActivity.active (record demand { is_live = true })
    else DemandActivity.inactive demand

-- The short cuts for no lease and for one give what collecting the sources and the scopes gives.
pub project_live_demand-eq-collected_demand :
    (locale_compare : String → String → ℤ) (leases : List CellLiveLease)
    → project_live_demand locale_compare leases ≡ collected_demand locale_compare leases
unfolding project_live_demand sort_by unique has
project_live_demand-eq-collected_demand lc [] = refl
project_live_demand-eq-collected_demand lc (lease ∷ []) = refl
project_live_demand-eq-collected_demand lc (lease ∷ other ∷ leases) = refl

-- The sources of a demand, by which of the two is among them.
abbrev pub sources_of : Bool → Bool → List NodeLiveSource
sources_of true true = manual ∷ mobx ∷ []
sources_of true false = manual ∷ []
sources_of false true = mobx ∷ []
sources_of false false = []

sort-unique_from-sources :
    (seen xs : List NodeLiveSource)
    → sort_by source_before (unique_from seen xs)
      ≡ sources_of (not (has manual seen) && has manual xs) (not (has mobx seen) && has mobx xs)
unfolding sort_by unique_from has
sort-unique_from-sources seen [] = ground arith
sort-unique_from-sources seen (mobx ∷ xs) =
    ground (arith, sort-unique_from-sources seen xs, sort-unique_from-sources (mobx ∷ seen) xs)
sort-unique_from-sources seen (manual ∷ xs) =
    ground (arith, sort-unique_from-sources seen xs, sort-unique_from-sources (manual ∷ seen) xs)

-- The sources of a demand are those of its leases, each once, in the order of the default sort.
pub sort-unique-sources :
    (xs : List NodeLiveSource)
    → sort_by source_before (unique xs) ≡ sources_of (has manual xs) (has mobx xs)
unfolding unique
sort-unique-sources xs = sort-unique_from-sources [] xs

abbrev pub entry_keys : List (NodeLiveScopeKey × Value) → List NodeLiveScopeKey
entry_keys = map (λ e. e.0)

-- The keys that the map of scopes ends up with.
pub has-scopes_by_key :
    (k : NodeLiveScopeKey) (seen : List (NodeLiveScopeKey × Value)) (leases : List CellLiveLease)
    → has k (entry_keys (scopes_by_key seen leases))
      ≡ (not (has k (entry_keys seen)) && has k (lease_scope_keys leases))
unfolding scopes_by_key has
has-scopes_by_key k seen [] = ground arith
has-scopes_by_key k seen (l ∷ ls) = ground (
  arith,
  has-scopes_by_key k seen ls,
  has-scopes_by_key k ((l.scope_key, l.scope) ∷ seen) ls,
  has-eq l.scope_key k (entry_keys seen),
)

-- A demand is live exactly if there is a lease, and its sources are those of the leases, each once
-- and sorted.
pub project_live_demand_lem :
    (locale_compare : String → String → ℤ) (leases : List CellLiveLease)
    → let demand = project_live_demand locale_compare leases in
      (demand.is_live ≡ nonempty leases)
      × (demand.sources
          ≡ sources_of (has manual (lease_sources leases)) (has mobx (lease_sources leases)))
unfolding project_live_demand has
project_live_demand_lem lc [] = (refl, refl)
project_live_demand_lem lc (l ∷ []) = ground arith
project_live_demand_lem lc (l ∷ m ∷ ls) = (ground arith, sort-unique-sources _)
