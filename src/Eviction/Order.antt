-- ===== src/Eviction/Order.antt =====
-- dependencyDepth and evictedNodeIds of packages/core/src/graph/lifecycle/eviction.ts: the nodes of
-- an eviction, the deepest first. Depth is the level at which the breadth-first walk over the
-- dependents of a node finds the last of them.
pub mod Levels
pub mod Depth
pub mod Exact
use Prim.Native.Nat.{max}
use frond.Shared.{
  ℕ, zero, suc, ◌+◌, ◌≤◌, ◌<◌, String, ◌≡◌, refl, ◌≢◌, ◌↔◌, Bool, true, false, not, ◌||◌, ◌&&◌,
  Option, none, some, List, [], ◌∷◌, ◌++◌, map, arith, if◌then◌else◌, ◌==◌, string_eq, nat_eq, has,
  length, leb, keep, Bool-cases, length-append, All, beq_sym,
}
use frond.Shared.Sort.{sort_by, insert_by, has-eq}
use frond.Shared.Seen.{unseen, unseen-le-length}
use frond.Types.Live.{NodeId}
use frond.Types.Operations.{EvictMode, self_and_dependents}
use frond.Eviction.Closure.{EdgeSnapshot, dependents, reverse_dependency_closure}

-- `for (const dependent of …) queue.push({ nodeId: dependent, depth })`.
abbrev pub at_depth : ℕ → List NodeId → List (NodeId × ℕ)
at_depth depth [] = []
at_depth depth (d ∷ ds) = (d, depth) ∷ at_depth depth ds

unfoldable pub depth_loop : ℕ → List EdgeSnapshot → ℕ → List NodeId → List (NodeId × ℕ) → Option ℕ
depth_loop zero edges depth visited queue = none
depth_loop (suc fuel) edges depth visited [] = some depth
depth_loop (suc fuel) edges depth visited ((node_id, level) ∷ queue) =
    let again = depth_loop fuel edges depth visited queue in
    let entered =
      depth_loop fuel edges (max depth level) (node_id ∷ visited)
        (queue ++ at_depth (level + 1) (dependents edges node_id)) in
    if has node_id visited then again else entered

-- Each entry of the queue but the first is an edge, once.
abbrev pub depth_fuel : List EdgeSnapshot → ℕ
depth_fuel edges = suc (suc (length edges))

unfoldable pub dependency_depth : List EdgeSnapshot → NodeId → Option ℕ
unfolding depth_loop
dependency_depth edges node_id = depth_loop (depth_fuel edges) edges 0 [] ((node_id, 0) ∷ [])

-- The depth of each node, looked up once.
pub depth_by_node : List EdgeSnapshot → List NodeId → Option (List (NodeId × ℕ))
unfolding dependency_depth
depth_by_node edges [] = some []
depth_by_node edges (node_id ∷ node_ids) = elim (dependency_depth edges node_id) [
  | none ↦ none
  | some depth ↦ elim (depth_by_node edges node_ids) [
    | none ↦ none
    | some rest ↦ some ((node_id, depth) ∷ rest)
  ]
]

-- `depth(right) - depth(left) <= 0`.
abbrev pub deeper : (NodeId × ℕ) → (NodeId × ℕ) → Bool
deeper left right = leb right.1 left.1

abbrev pub node_ids : List (NodeId × ℕ) → List NodeId
node_ids [] = []
node_ids ((node_id, depth) ∷ rest) = node_id ∷ node_ids rest

-- `closure.delete(root)` for every root, where only the dependents are to go.
pub selected : EvictMode → List NodeId → List NodeId → List NodeId
selected EvictMode.dependents roots closure = keep (λ a. not (has a roots)) closure
selected self_and_dependents roots closure = closure

pub sorted_by_depth : List EdgeSnapshot → List NodeId → Option (List (NodeId × ℕ))
unfolding depth_by_node
sorted_by_depth edges closure = elim (depth_by_node edges closure) [
  | none ↦ none
  | some depths ↦ some (sort_by deeper depths)
]

pub evicted_node_ids :
    List EdgeSnapshot → List NodeId → EvictMode → List NodeId → Option (List NodeId)
unfolding sorted_by_depth selected
evicted_node_ids edges nodes mode roots = elim (reverse_dependency_closure edges nodes roots) [
  | none ↦ none
  | some closure ↦ elim (sorted_by_depth edges (selected mode roots closure)) [
    | none ↦ none
    | some sorted ↦ some (node_ids sorted)
  ]
]

abbrev targets : List EdgeSnapshot → List NodeId
targets [] = []
targets (edge ∷ edges) = edge.to ∷ targets edges

length-targets : (edges : List EdgeSnapshot) → length (targets edges) ≡ length edges
length-targets [] = refl
length-targets (edge ∷ edges) = omega (arith, length-targets edges)

length-at_depth : (depth : ℕ) (ds : List NodeId) → length (at_depth depth ds) ≡ length ds
length-at_depth depth [] = refl
length-at_depth depth (d ∷ ds) = omega (arith, length-at_depth depth ds)

-- Entering a node turns its edges into entries of the queue.
unseen-enter :
    (node_id : NodeId) (visited : List NodeId) (edges : List EdgeSnapshot)
    → has node_id visited ≡ false
    → unseen (node_id ∷ visited) (targets edges) + length (dependents edges node_id)
      ≡ unseen visited (targets edges)
unfolding unseen dependents has
unseen-enter n visited [] h = omega arith
unseen-enter n visited (edge ∷ edges) h =
    ground (arith, unseen-enter n visited edges, beq_sym n edge.to, has-eq edge.to n visited)

depth_loop_total :
    (fuel : ℕ) (edges : List EdgeSnapshot) (depth : ℕ) (visited : List NodeId)
    (queue : List (NodeId × ℕ))
    → length queue + unseen visited (targets edges) < fuel
    → depth_loop fuel edges depth visited queue ≢ none
unfolding depth_loop
depth_loop_total zero edges depth visited queue h = absurd (omega arith)
depth_loop_total (suc fuel) edges depth visited [] h = λ e. cc
depth_loop_total (suc fuel) edges depth visited ((n, level) ∷ queue) h = ground (
  arith,
  depth_loop_total fuel edges depth visited queue,
  depth_loop_total fuel edges (max depth level) (n ∷ visited)
      (queue ++ at_depth (level + 1) (dependents edges n)),
  length-append queue (at_depth (level + 1) (dependents edges n)),
  length-at_depth (level + 1) (dependents edges n),
  unseen-enter n visited edges,
)

pub dependency_depth_total :
    (edges : List EdgeSnapshot) (node_id : NodeId) → dependency_depth edges node_id ≢ none
unfolding dependency_depth
dependency_depth_total edges node_id =
    depth_loop_total (depth_fuel edges) edges 0 [] ((node_id, 0) ∷ [])
      (omega (arith, unseen-le-length [] (targets edges), length-targets edges))
