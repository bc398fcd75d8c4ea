-- ===== src/Liveness/Changes.antt =====
-- When packages/core/src/graph/liveness/index.ts takes two lists of leases for the same demand.
use frond.Shared.{
  ◌≡◌, refl, sym, ◌∙◌, ◌↔◌, true, List, [], ◌∷◌, arith, Eq, string_eq, nat_eq, has, length,
  beq_refl,
}
use frond.Shared.Sort.{unique, has-eq, has-unique}
use frond.Shared.Distinct.{same_length, length-same, unique-IsDistinct}
use frond.Types.Live.{source_eq, NodeLiveSource, NodeLiveScopeKey}
use frond.Cell.Phase.{CellLiveLease}
use frond.Cell.Demand.{lease_sources, lease_scope_keys}
use frond.Liveness.Leases.{every_has, same_set, same_live_leases_demand}

module _ {A : Type 0} ⦃e : Eq A⦄ where
  every_has-all :
      (xs values : List A)
      → every_has xs values ≡ true
      → (a : A) → has a xs ≡ true
      → has a values ≡ true
  unfolding every_has has
  every_has-all [] values h a m = absurd (ground (arith, m))
  every_has-all (x ∷ xs) values h a m =
      ground (arith, h, m, every_has-all xs values (ground (arith, h)) a, has-eq x a values)

  all-every_has :
      (xs values : List A)
      → ((a : A) → has a xs ≡ true → has a values ≡ true)
      → every_has xs values ≡ true
  unfolding every_has has
  all-every_has [] values h = refl
  all-every_has (x ∷ xs) values h =
      ground (arith, h x, beq_refl x, all-every_has xs values (λ a m. h a (ground (arith, m))))

  -- The comparison of two sets by size and by the members of the first is equality of the sets.
  same_set_iff :
      (left right : List A) → (same_set left right ≡ true) ↔ ((a : A) → has a left ≡ has a right)
  unfolding same_set
  same_set_iff left right = (
    λ h a.
        let sizes : length (unique left) ≡ length (unique right) = ground (arith, h) in
        let part = every_has-all (unique left) (unique right) (ground (arith, h)) in
        let back =
          same_length (unique left) (unique right) (unique-IsDistinct left)
            (unique-IsDistinct right) sizes part a in
        ground (arith, part a, back, has-unique a left, has-unique a right),
    λ h.
        let sizes =
          length-same (unique left) (unique right) (unique-IsDistinct left)
            (unique-IsDistinct right) (λ a. has-unique a left ∙ h a ∙ sym (has-unique a right)) in
        let part =
          all-every_has (unique left) (unique right)
            (λ a m. ground (arith, m, h a, has-unique a left, has-unique a right)) in
        ground (arith, sizes, part),
  )

-- Two lists of leases count as the same demand exactly where they have the same sources and the same
-- keys of scopes, however often and in whatever order each of these occurs.
pub same_live_leases_demand_iff :
    (left right : List CellLiveLease)
    → (same_live_leases_demand left right ≡ true) ↔ (
        ((source : NodeLiveSource)
          → has source (lease_sources left) ≡ has source (lease_sources right))
        × ((key : NodeLiveScopeKey)
            → has key (lease_scope_keys left) ≡ has key (lease_scope_keys right)))
unfolding same_live_leases_demand
same_live_leases_demand_iff left right =
    let sources = same_set_iff (lease_sources left) (lease_sources right) in
    let keys = same_set_iff (lease_scope_keys left) (lease_scope_keys right) in
    (
      λ h. (sources.0 (ground (arith, h)), keys.0 (ground (arith, h))),
      λ h. ground (arith, sources.1 h.0, keys.1 h.1),
    )
