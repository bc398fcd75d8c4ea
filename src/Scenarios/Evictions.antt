-- ===== src/Scenarios/Evictions.antt =====
-- A graph of four nodes: b and c depend on a, and c on d.
use frond.Shared.{
  ℕ, ◌≤◌, ◌<◌, arith, ◌≡◌, refl, ◌↔◌, true, not, none, some, List, [], ◌∷◌, has, keep, All,
  string_eq, if◌then◌else◌,
}
use frond.Shared.Maps.{get}
use frond.Types.Value.{text}
use frond.Types.Live.{NodeId, GraphFailure}
use frond.Types.Operations.{EvictMode, self_and_dependents}
use frond.Cell.Phase.{CellPhase, ReadyData}
use frond.Eviction.Closure.{EdgeSnapshot, reverse_dependency_closure}
use frond.Eviction.Closure.Reach.{IsEvicted, reverse_dependency_closure_exact}
use frond.Eviction.Order.{evicted_node_ids, node_ids}
use frond.Eviction.Order.Exact.{Takes, HasDepth, IsDescending, evicted_node_ids_exact}
use frond.Eviction.Evict.{
  EvictionState, GraphNodeCell, evict_subgraph, evict_nodes, shut_down, materialize_cell,
}
use frond.Eviction.Evict.Revisions.{materialize_cell-evict_nodes}
use frond.Eviction.Evict.Survivors.{IsWired, evict_subgraph_survivors}

abbrev edges : List EdgeSnapshot
edges =
    record { from = "b"; to = "a"; dependency = "a" }
    ∷ record { from = "c"; to = "a"; dependency = "a" }
    ∷ record { from = "c"; to = "d"; dependency = "d" }
    ∷ []

abbrev nodes : List NodeId
nodes = "a" ∷ "b" ∷ "c" ∷ "d" ∷ []

reverse_dependency_closure_exact_example :
    (closure : List NodeId) × (reverse_dependency_closure edges nodes ("a" ∷ []) ≡ some closure)
    × ((a : NodeId) → (has a closure ≡ true) ↔ IsEvicted edges nodes ("a" ∷ []) a)
reverse_dependency_closure_exact_example = reverse_dependency_closure_exact edges nodes ("a" ∷ [])

evicted_node_ids_exact_example :
    (sorted : List (NodeId × ℕ)) × (evicted_node_ids edges nodes EvictMode.dependents ("a" ∷ [])
      ≡ some (node_ids sorted))
    × ((a : NodeId)
        → (has a (node_ids sorted) ≡ true)
          ↔ (IsEvicted edges nodes ("a" ∷ []) a × Takes EvictMode.dependents ("a" ∷ []) a))
    × All (HasDepth edges) sorted
    × IsDescending sorted
evicted_node_ids_exact_example = evicted_node_ids_exact edges nodes EvictMode.dependents ("a" ∷ [])

abbrev cell : GraphNodeCell
cell = record {
  current = record {
    next_operation_id = 1;
    next_attempt_id = 0;
    next_live_generation = 1;
    phase =
        CellPhase.readiness_error
          (record {
            args = text "args";
            live_leases = [];
            result_validity = none;
            live_failure = none;
          })
          (text "failed");
  };
  revision = 4;
}

abbrev graph : EvictionState
graph = record {
  nodes = ("a", cell) ∷ ("b", cell) ∷ ("c", cell) ∷ ("d", cell) ∷ [];
  edges = edges;
  evicted_revision_by_node_id = [];
  actors = [];
  refresh_admissions = [];
}

abbrev no_interrupt : NodeId → GraphNodeCell → GraphNodeCell
no_interrupt node_id c = c

abbrev no_teardown : GraphNodeCell → ReadyData → GraphNodeCell × List GraphFailure
no_teardown c r = (c, [])

graph-IsWired : IsWired graph
unfolding has
graph-IsWired = ((refl, refl), ((refl, refl), ((refl, refl), tt)))

evict_subgraph_survivors_example :
    (after : EvictionState) × (evicted : List NodeId) × (failures : List GraphFailure)
    × (evict_subgraph no_interrupt no_teardown graph
          record { root_node_ids = "a" ∷ []; mode = self_and_dependents }
        ≡ some (after, evicted, failures))
    × ((a : NodeId) → (has a evicted ≡ true) ↔ IsEvicted edges nodes ("a" ∷ []) a)
    × ((a : NodeId) → get a after.nodes ≡ (if has a evicted then none else get a graph.nodes))
    × (after.edges ≡ keep (λ edge. not (has edge.from evicted)) edges)
    × IsWired after
evict_subgraph_survivors_example =
    evict_subgraph_survivors no_interrupt no_teardown graph ("a" ∷ []) graph-IsWired

no_interrupt_le : (n : NodeId) (c : GraphNodeCell) → c.revision ≤ (no_interrupt n c).revision
no_interrupt_le n c = omega arith

no_teardown_le : (c : GraphNodeCell) (r : ReadyData) → c.revision ≤ (no_teardown c r).0.revision
no_teardown_le c r = omega arith

materialize_cell-evict_nodes_example :
    (fresh : GraphNodeCell) × (get "a"
        (materialize_cell
          (evict_nodes no_interrupt no_teardown graph ("b" ∷ "a" ∷ [])).0
          "a"
          cell.current).nodes
      ≡ some fresh)
    × (fresh.current ≡ cell.current)
    × (4 < (shut_down no_interrupt no_teardown graph.actors "a" cell).0.revision)
    × ((shut_down no_interrupt no_teardown graph.actors "a" cell).0.revision < fresh.revision)
    × (get "a"
          (materialize_cell
            (evict_nodes no_interrupt no_teardown graph ("b" ∷ "a" ∷ [])).0
            "a"
            cell.current).evicted_revision_by_node_id
        ≡ none)
unfolding get has
materialize_cell-evict_nodes_example =
    materialize_cell-evict_nodes no_interrupt no_teardown no_interrupt_le no_teardown_le "a" graph
      cell ("b" ∷ "a" ∷ []) cell.current refl refl
