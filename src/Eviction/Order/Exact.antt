-- ===== src/Eviction/Order/Exact.antt =====
-- Which nodes evictedNodeIds of packages/core/src/graph/lifecycle/eviction.ts takes, and in which
-- order.
use frond.Shared.{
  ℕ, ◌≤◌, ◌≡◌, refl, ◌↔◌, inl, inr, if_both, true, false, not, ◌||◌, ◌&&◌, some, List, [], ◌∷◌,
  arith, ◌==◌, string_eq, has, keep, Option-cases, All, ap,
}
use frond.Shared.Sort.{sort_by, insert_by, has-eq}
use frond.Types.Live.{NodeId}
use frond.Types.Operations.{EvictMode, self_and_dependents}
use frond.Eviction.Closure.{EdgeSnapshot}
use frond.Eviction.Closure.Reach.{IsEvicted, reverse_dependency_closure_exact}
use frond.Eviction.Order.Depth.{IsDepth, dependency_depth-IsDepth}
use frond.Eviction.Order.{
  dependency_depth, dependency_depth_total, depth_by_node, deeper, node_ids, selected,
  evicted_node_ids,
}

-- The mode leaves the roots themselves out, or not.
abbrev pub Takes : EvictMode → List NodeId → NodeId → Type 0
Takes EvictMode.dependents roots a = has a roots ≡ false
Takes self_and_dependents roots a = Unit

-- Each entry stands behind those of at least its depth.
abbrev pub IsDescending : List (NodeId × ℕ) → Type 0
IsDescending [] = Unit
IsDescending (x ∷ xs) = All (λ y. y.1 ≤ x.1) xs × IsDescending xs

All-insert :
    (P : NodeId × ℕ → Type 0) (x : NodeId × ℕ) (xs : List (NodeId × ℕ))
    → P x
    → All P xs
    → All P (insert_by deeper x xs)
unfolding insert_by
All-insert P x [] h k = (h, tt)
All-insert P x (y ∷ ys) h k =
    if_both (All P) (deeper x y) _ _ (λ e. (h, k)) (λ e. (k.0, All-insert P x ys h k.1))

All-sort : (P : NodeId × ℕ → Type 0) (xs : List (NodeId × ℕ)) → All P xs → All P (sort_by deeper xs)
unfolding sort_by
All-sort P [] h = tt
All-sort P (x ∷ xs) h = All-insert P x (sort_by deeper xs) h.0 (All-sort P xs h.1)

below_trans :
    (m n : ℕ) (xs : List (NodeId × ℕ)) → m ≤ n → All (λ y. y.1 ≤ m) xs → All (λ y. y.1 ≤ n) xs
below_trans m n [] h k = tt
below_trans m n (x ∷ xs) h k = (omega (arith, k.0), below_trans m n xs h k.1)

insert-IsDescending :
    (x : NodeId × ℕ) (xs : List (NodeId × ℕ))
    → IsDescending xs
    → IsDescending (insert_by deeper x xs)
unfolding insert_by
insert-IsDescending x [] h = (tt, tt)
insert-IsDescending x (y ∷ ys) h =
    if_both IsDescending (deeper x y) _ _
      (λ e. let le : y.1 ≤ x.1 = ground (arith, e) in ((le, below_trans y.1 x.1 ys le h.0), h))
      (λ e.
        (All-insert (λ z. z.1 ≤ y.1) x ys (ground (arith, e)) h.0, insert-IsDescending x ys h.1))

sort-IsDescending : (xs : List (NodeId × ℕ)) → IsDescending (sort_by deeper xs)
unfolding sort_by
sort-IsDescending [] = tt
sort-IsDescending (x ∷ xs) = insert-IsDescending x (sort_by deeper xs) (sort-IsDescending xs)

has-insert :
    (a : NodeId) (x : NodeId × ℕ) (xs : List (NodeId × ℕ))
    → has a (node_ids (insert_by deeper x xs)) ≡ (x.0 == a || has a (node_ids xs))
unfolding insert_by has
has-insert a x [] = refl
has-insert a x (y ∷ ys) = ground (arith, has-insert a x ys)

has-sort :
    (a : NodeId) (xs : List (NodeId × ℕ))
    → has a (node_ids (sort_by deeper xs)) ≡ has a (node_ids xs)
unfolding sort_by has
has-sort a [] = refl
has-sort a (x ∷ xs) = ground (arith, has-insert a x (sort_by deeper xs), has-sort a xs)

abbrev pub HasDepth : List EdgeSnapshot → NodeId × ℕ → Type 0
HasDepth edges entry = IsDepth edges entry.0 entry.1

depth_by_node_lem :
    (edges : List EdgeSnapshot) (closure : List NodeId)
    → (depths : List (NodeId × ℕ)) × (depth_by_node edges closure ≡ some depths)
      × (node_ids depths ≡ closure)
      × All (HasDepth edges) depths
unfolding depth_by_node
depth_by_node_lem edges [] = ([], refl, refl, tt)
depth_by_node_lem edges (a ∷ closure) = elim (Option-cases (dependency_depth edges a)) [
  | inl e ↦ absurd (dependency_depth_total edges a e)
  | inr (depth, e) ↦
      let (rest, made, same, right) = depth_by_node_lem edges closure in
      (
        (a, depth) ∷ rest,
        ground (arith, e, made),
        ap (λ l. a ∷ l) same,
        (dependency_depth-IsDepth edges a depth e, right),
      )
]

has-keep :
    (a : NodeId) (roots closure : List NodeId)
    → has a (keep (λ b. not (has b roots)) closure) ≡ (has a closure && not (has a roots))
unfolding has
has-keep a roots [] = refl
has-keep a roots (x ∷ xs) = ground (arith, has-keep a roots xs, has-eq x a roots)

selected_lem :
    (mode : EvictMode) (roots closure : List NodeId) (a : NodeId)
    → (has a (selected mode roots closure) ≡ true) ↔ ((has a closure ≡ true) × Takes mode roots a)
unfolding selected
selected_lem EvictMode.dependents roots closure a = ground (arith, has-keep a roots closure)
selected_lem self_and_dependents roots closure a = (λ h. (h, tt), λ h. h.0)

-- An eviction always finds its nodes, and in order: they are exactly the nodes of the closure that
-- the mode takes, and each comes with its depth, the distance of the farthest node that depends on it,
-- no node before one that is deeper.
pub evicted_node_ids_exact :
    (edges : List EdgeSnapshot) (nodes : List NodeId) (mode : EvictMode) (roots : List NodeId)
    → (sorted : List (NodeId × ℕ)) × (evicted_node_ids edges nodes mode roots
        ≡ some (node_ids sorted))
      × ((a : NodeId)
          → (has a (node_ids sorted) ≡ true) ↔ (IsEvicted edges nodes roots a × Takes mode roots a))
      × All (HasDepth edges) sorted
      × IsDescending sorted
unfolding evicted_node_ids
evicted_node_ids_exact edges nodes mode roots =
    let (closure, collected, exact) = reverse_dependency_closure_exact edges nodes roots in
    let (depths, made, same, right) = depth_by_node_lem edges (selected mode roots closure) in
    (
      sort_by deeper depths,
      ground (arith, collected, made),
      λ a. members a closure depths exact same,
      All-sort (HasDepth edges) depths right,
      sort-IsDescending depths,
    )
  where
    members :
        (a : NodeId) (closure : List NodeId) (depths : List (NodeId × ℕ))
        → ((b : NodeId) → (has b closure ≡ true) ↔ IsEvicted edges nodes roots b)
        → node_ids depths ≡ selected mode roots closure
        → (has a (node_ids (sort_by deeper depths)) ≡ true)
          ↔ (IsEvicted edges nodes roots a × Takes mode roots a)
    members a closure depths exact same =
        rw (has-sort a depths, same)
          (
            λ h. let k = (selected_lem mode roots closure a).0 h in ((exact a).0 k.0, k.1),
            λ h. (selected_lem mode roots closure a).1 ((exact a).1 h.0, h.1),
          )
