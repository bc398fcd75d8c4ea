-- ===== src/Eviction/Evict/Survivors.antt =====
-- The nodes and edges that evictSubgraph of packages/core/src/graph/lifecycle/eviction.ts leaves.
use frond.Shared.{
  ◌≡◌, refl, sym, ◌↔◌, inl, inr, ap, ◌∙◌, true, false, not, ◌||◌, none, some, List, [], ◌∷◌, arith,
  if◌then◌else◌, ◌==◌, string_eq, has, keep, All, All-map, Option-cases, beq_refl, beq_sym, if_both,
}
use frond.Shared.Maps.{get, delete, keys, get-delete, has-keys-delete, get-none}
use frond.Shared.Sort.{has-eq}
use frond.Types.Live.{NodeId, GraphFailure}
use frond.Types.Operations.{self_and_dependents}
use frond.Cell.Phase.{ReadyData}
use frond.Eviction.Closure.{EdgeSnapshot, dependents}
use frond.Eviction.Closure.Reach.{IsEvicted, Dependent}
use frond.Eviction.Order.{node_ids}
use frond.Eviction.Order.Exact.{evicted_node_ids_exact}
use frond.Eviction.Evict.{
  GraphNodeCell, EvictionState, touches, remove_edges_for_node, evict_node, evict_nodes,
  evict_subgraph,
}

-- Every edge joins two nodes of the graph.
abbrev Joins : List NodeId → EdgeSnapshot → Type 0
Joins nodes edge = (has edge.from nodes ≡ true) × (has edge.to nodes ≡ true)

abbrev pub IsWired : EvictionState → Type 0
IsWired s = All (Joins (keys s.nodes)) s.edges

Joins-delete :
    (n : NodeId) (nodes : List (NodeId × GraphNodeCell)) (edges : List EdgeSnapshot)
    → All (Joins (keys nodes)) edges
    → All (Joins (keys (delete n nodes))) (remove_edges_for_node n edges)
unfolding remove_edges_for_node
Joins-delete n nodes [] h = tt
Joins-delete n nodes (edge ∷ edges) h =
    if_both (All (Joins (keys (delete n nodes)))) (not (touches n edge)) _ _
      (λ e. (
        (
          ground (arith, e, h.0, has-keys-delete n edge.from nodes, beq_sym edge.from n),
          ground (arith, e, h.0, has-keys-delete n edge.to nodes, beq_sym edge.to n),
        ),
        Joins-delete n nodes edges h.1,
      ))
      (λ e. Joins-delete n nodes edges h.1)

untouched :
    (n : NodeId) (nodes : List NodeId) (edges : List EdgeSnapshot)
    → has n nodes ≡ false
    → All (Joins nodes) edges
    → remove_edges_for_node n edges ≡ edges
unfolding remove_edges_for_node
untouched n nodes [] m h = refl
untouched n nodes (edge ∷ edges) m h =
    ground (arith, untouched n nodes edges m h.1, has-eq edge.from n nodes, has-eq edge.to n nodes)

keep-all : (edges : List EdgeSnapshot) → keep (λ edge. true) edges ≡ edges
keep-all [] = refl
keep-all (edge ∷ edges) = ap (λ l. edge ∷ l) (keep-all edges)

keep-touches :
    (n : NodeId) (ns : List NodeId) (edges : List EdgeSnapshot)
    → keep (λ edge. not (has edge.from ns || has edge.to ns)) (remove_edges_for_node n edges)
      ≡ keep
          (λ edge. not ((n == edge.from || has edge.from ns) || (n == edge.to || has edge.to ns)))
          edges
unfolding remove_edges_for_node
keep-touches n ns [] = refl
keep-touches n ns (edge ∷ edges) =
    ground (arith, keep-touches n ns edges, beq_sym edge.from n, beq_sym edge.to n)

-- An edge into the set comes out of it.
abbrev IsClosed : List NodeId → EdgeSnapshot → Type 0
IsClosed ns edge = has edge.to ns ≡ true → has edge.from ns ≡ true

keep-from :
    (ns : List NodeId) (edges : List EdgeSnapshot)
    → All (IsClosed ns) edges
    → keep (λ edge. not (has edge.from ns || has edge.to ns)) edges
      ≡ keep (λ edge. not (has edge.from ns)) edges
keep-from ns [] h = refl
keep-from ns (edge ∷ edges) h = ground (arith, keep-from ns edges h.1, h.0)

All-dependents :
    (edges : List EdgeSnapshot)
    → All (λ edge. has edge.from (dependents edges edge.to) ≡ true) edges
unfolding dependents has
All-dependents [] = tt
All-dependents (edge ∷ edges) = (
  ground (arith, beq_refl edge.to, beq_refl edge.from),
  All-map _ _ edges (λ other h. ground (arith, h)) (All-dependents edges),
)

dependent-step :
    (edges : List EdgeSnapshot) (nodes roots : List NodeId) (to from : NodeId)
    → IsEvicted edges nodes roots to
    → has from (dependents edges to) ≡ true
    → IsEvicted edges nodes roots from
dependent-step edges nodes roots to from (inl r) m = inr (Dependent.of_root to r.0 m)
dependent-step edges nodes roots to from (inr d) m = inr (Dependent.of_dependent to d m)

IsClosed-exact :
    (edges : List EdgeSnapshot) (nodes roots ns : List NodeId)
    → ((a : NodeId) → (has a ns ≡ true) ↔ IsEvicted edges nodes roots a)
    → All (IsClosed ns) edges
IsClosed-exact edges nodes roots ns exact =
    All-map _ _ edges
      (λ edge m into.
        (exact edge.from).1
          (dependent-step edges nodes roots edge.to edge.from ((exact edge.to).0 into) m))
      (All-dependents edges)

module _ (interrupt : NodeId → GraphNodeCell → GraphNodeCell)
    (teardown : GraphNodeCell → ReadyData → GraphNodeCell × List GraphFailure) where
  -- The state after one node is evicted, present or not.
  evict_node_lem :
      (s : EvictionState) (n : NodeId)
      → IsWired s
      → let after = (evict_node interrupt teardown s n).0 in
        IsWired after
        × ((a : NodeId) → get a after.nodes ≡ (if n == a then none else get a s.nodes))
        × (after.edges ≡ remove_edges_for_node n s.edges)
  unfolding evict_node
  evict_node_lem s n h = elim (Option-cases (get n s.nodes)) [
    | inl e ↦
        rw (e, evict_node)
          (
            h,
            λ a. ground (arith, e, string_eq.beq_iff n a),
            sym (untouched n (keys s.nodes) s.edges (get-none n s.nodes e) h),
          )
    | inr (cell, e) ↦
        rw (e, evict_node) (Joins-delete n s.nodes s.edges h, λ a. get-delete n a s.nodes, refl)
  ]

  evict_nodes_lem :
      (s : EvictionState) (ns : List NodeId)
      → IsWired s
      → let after = (evict_nodes interrupt teardown s ns).0 in
        IsWired after
        × ((a : NodeId) → get a after.nodes ≡ (if has a ns then none else get a s.nodes))
        × (after.edges ≡ keep (λ edge. not (has edge.from ns || has edge.to ns)) s.edges)
  unfolding evict_nodes has
  evict_nodes_lem s [] h = (h, λ a. refl, sym (keep-all s.edges))
  evict_nodes_lem s (n ∷ ns) h =
      let one = evict_node_lem s n h in
      let rest = evict_nodes_lem (evict_node interrupt teardown s n).0 ns one.0 in
      (
        rest.0,
        λ a. ground (arith, rest.1 a, one.1 a),
        rest.2
            ∙ ap (keep (λ edge. not (has edge.from ns || has edge.to ns))) one.2
            ∙ keep-touches n ns s.edges,
      )

  -- Evicting nodes with all that depends on them, in a graph whose edges join nodes of it: the nodes
  -- that go are exactly the roots present and the nodes that depend on a root, and a node that stays
  -- is untouched. Of the edges, exactly those that start from an evicted node go, so that no node
  -- that stays loses a dependency, and every edge left joins two nodes that stay.
  pub evict_subgraph_survivors :
      (s : EvictionState) (roots : List NodeId)
      → IsWired s
      → (after : EvictionState) × (node_ids : List NodeId) × (failures : List GraphFailure)
        × (evict_subgraph interrupt teardown s
              record { root_node_ids = roots; mode = self_and_dependents }
            ≡ some (after, node_ids, failures))
        × ((a : NodeId) → (has a node_ids ≡ true) ↔ IsEvicted s.edges (keys s.nodes) roots a)
        × ((a : NodeId) → get a after.nodes ≡ (if has a node_ids then none else get a s.nodes))
        × (after.edges ≡ keep (λ edge. not (has edge.from node_ids)) s.edges)
        × IsWired after
  unfolding evict_subgraph
  evict_subgraph_survivors s roots h =
      let (sorted, found, exact, right, order) =
        evicted_node_ids_exact s.edges (keys s.nodes) self_and_dependents roots in
      let ns = node_ids sorted in
      let rest = evict_nodes_lem s ns h in
      let members : (a : NodeId) → (has a ns ≡ true) ↔ IsEvicted s.edges (keys s.nodes) roots a =
        λ a. (λ m. ((exact a).0 m).0, λ m. (exact a).1 (m, tt)) in
      (
        (evict_nodes interrupt teardown s ns).0,
        ns,
        (evict_nodes interrupt teardown s ns).1,
        ground (arith, found),
        members,
        rest.1,
        rest.2 ∙ keep-from ns s.edges (IsClosed-exact s.edges (keys s.nodes) roots ns members),
        rest.0,
      )
