-- ===== src/Eviction/Closure.antt =====
-- reverseAdjacency and reverseDependencyClosure of packages/core/src/graph/lifecycle/eviction.ts:
-- the breadth-first walk from the roots to what depends on them. A `Set` is a list in insertion
-- order, and the map of dependents a function. The queue is what stands behind `head`; the `while`
-- loop runs on fuel, and `none` says that it ran out.
pub mod Reach
use frond.Shared.{
  ℕ, zero, suc, ◌+◌, String, ◌≡◌, Bool, true, false, not, ◌||◌, ◌&&◌, Option, none, some, List, [],
  ◌∷◌, ◌++◌, map, arith, if◌then◌else◌, ◌==◌, string_eq, has, length,
}
use frond.Types.Live.{NodeId}

pub record EdgeSnapshot : Type 0 where
  pub from : NodeId
  pub to : NodeId
  pub dependency : String

-- `reverseEdges.get(nodeId) ?? []`.
unfoldable pub dependents : List EdgeSnapshot → NodeId → List NodeId
dependents [] node_id = []
dependents (edge ∷ edges) node_id =
    let rest = dependents edges node_id in if edge.to == node_id then edge.from ∷ rest else rest

abbrev pub sources : List EdgeSnapshot → List NodeId
sources [] = []
sources (edge ∷ edges) = edge.from ∷ sources edges

-- The inner `for` loop: the visited set and the queue after the dependents of one node.
pub visit_dependents : List NodeId → List NodeId → List NodeId → List NodeId × List NodeId
visit_dependents visited queue [] = (visited, queue)
visit_dependents visited queue (d ∷ ds) =
    let again = visit_dependents visited queue ds in
    let added = visit_dependents (visited ++ d ∷ []) (queue ++ d ∷ []) ds in
    if has d visited then again else added

-- `for (const root of roots) if (state.nodes.has(root)) visited.add(root)`.
pub initial_visited : List NodeId → List NodeId → List NodeId → List NodeId
initial_visited nodes visited [] = visited
initial_visited nodes visited (root ∷ roots) =
    initial_visited nodes
      (if has root nodes && not (has root visited) then visited ++ root ∷ [] else visited) roots

pub closure_loop : ℕ → List EdgeSnapshot → List NodeId → List NodeId → Option (List NodeId)
unfolding visit_dependents
closure_loop zero edges visited queue = none
closure_loop (suc fuel) edges visited [] = some visited
closure_loop (suc fuel) edges visited (current ∷ queue) =
    let (visited', queue') = visit_dependents visited queue (dependents edges current) in
    closure_loop fuel edges visited' queue'

-- Every round takes one entry off the queue, and an entry is a root or the source of an edge, once.
abbrev pub closure_fuel : List EdgeSnapshot → List NodeId → ℕ
closure_fuel edges roots = suc (length roots + length (sources edges))

unfoldable pub reverse_dependency_closure :
    List EdgeSnapshot → List NodeId → List NodeId → Option (List NodeId)
unfolding closure_loop initial_visited
reverse_dependency_closure edges nodes roots =
    closure_loop (closure_fuel edges roots) edges (initial_visited nodes [] roots) roots
