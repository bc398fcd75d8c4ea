-- ===== src/Eviction/Evict.antt =====
-- evictSubgraph and evictNode of packages/core/src/graph/lifecycle/eviction.ts, with releaseCell of
-- lifecycle/cleanup.ts and the seeding of a new cell's revision by planning/plan.ts. Two effects that
-- end in the author's code are parameters: `interrupt`, what closing the actor's submissions does
-- to the cell, and `teardown`, the teardown of the ready data.
pub mod Survivors
pub mod Revisions
use frond.Shared.{
  ℕ, suc, ◌+◌, ◌≤◌, ◌<◌, String, ◌≡◌, Bool, true, false, not, ◌||◌, Option, none, some, List, [],
  ◌∷◌, ◌++◌, if◌then◌else◌, ◌==◌, string_eq, has, keep,
}
use frond.Shared.Maps.{get, put, delete, keys}
use frond.Types.Live.{NodeId, GraphFailure}
use frond.Types.Operations.{EvictMode}
use frond.Cell.Phase.{ReadyData, CellPhaseReadyLookup, phase_ready_data}
use frond.Cell.Transitions.{
  GraphNodeState, GraphCellState, complete_release_state, make_graph_cell_state, replace,
}
use frond.Eviction.Closure.{EdgeSnapshot}
use frond.Eviction.Order.{evicted_node_ids}

abbrev pub GraphNodeCell : Type 0
GraphNodeCell = GraphCellState GraphNodeState

-- The parts of `GraphPlanState` and of the system that an eviction changes.
pub record EvictionState : Type 0 where
  pub nodes : List (NodeId × GraphNodeCell)
  pub edges : List EdgeSnapshot
  pub evicted_revision_by_node_id : List (NodeId × ℕ)
  pub actors : List NodeId
  pub refresh_admissions : List NodeId

pub record EvictSubgraphRequest : Type 0 where
  pub root_node_ids : List NodeId
  pub mode : EvictMode

-- An edge that starts or ends at the node.
abbrev pub touches : NodeId → EdgeSnapshot → Bool
touches node_id edge = edge.from == node_id || edge.to == node_id

unfoldable pub remove_edges_for_node : NodeId → List EdgeSnapshot → List EdgeSnapshot
remove_edges_for_node node_id edges = keep (λ edge. not (touches node_id edge)) edges

module _ (interrupt : NodeId → GraphNodeCell → GraphNodeCell)
    (teardown : GraphNodeCell → ReadyData → GraphNodeCell × List GraphFailure) where
  -- The state that is released is the one read before the teardown.
  pub release_cell : GraphNodeCell → GraphNodeCell × List GraphFailure
  unfolding phase_ready_data complete_release_state replace
  release_cell cell = elim (phase_ready_data cell.current.phase) [
    | CellPhaseReadyLookup.found r ↦
        let (after, failures) = teardown cell r in
        (replace after (complete_release_state cell.current failures), failures)
    | CellPhaseReadyLookup.missing tag ↦ (replace cell (complete_release_state cell.current []), [])
  ]

  -- With an actor its submissions are interrupted first, and the release runs as its last work.
  pub shut_down : List NodeId → NodeId → GraphNodeCell → GraphNodeCell × List GraphFailure
  unfolding release_cell
  shut_down actors node_id cell =
      if has node_id actors then release_cell (interrupt node_id cell) else release_cell cell

  pub evict_node : EvictionState → NodeId → EvictionState × List GraphFailure
  unfolding get put delete remove_edges_for_node shut_down
  evict_node s node_id = elim (get node_id s.nodes) [
    | none ↦ (s, [])
    | some cell ↦
        let (released, failures) = shut_down s.actors node_id cell in
        (
          record {
            nodes = delete node_id s.nodes;
            edges = remove_edges_for_node node_id s.edges;
            evicted_revision_by_node_id =
                put node_id released.revision s.evicted_revision_by_node_id;
            actors = keep (λ a. not (a == node_id)) s.actors;
            refresh_admissions = keep (λ a. not (a == node_id)) s.refresh_admissions;
          },
          failures,
        )
  ]

  pub evict_nodes : EvictionState → List NodeId → EvictionState × List GraphFailure
  unfolding evict_node
  evict_nodes s [] = (s, [])
  evict_nodes s (node_id ∷ node_ids) =
      let (after, failures) = evict_node s node_id in
      let (last, others) = evict_nodes after node_ids in (last, failures ++ others)

  -- The state after, the nodes that were evicted, and the cleanup failures.
  pub evict_subgraph :
      EvictionState
      → EvictSubgraphRequest
      → Option (EvictionState × List NodeId × List GraphFailure)
  unfolding evict_nodes
  evict_subgraph s request =
      elim (evicted_node_ids s.edges (keys s.nodes) request.mode request.root_node_ids) [
        | none ↦ none
        | some node_ids ↦
            let (after, failures) = evict_nodes s node_ids in some (after, node_ids, failures)
      ]

-- `evictedRevision === undefined ? 0 : evictedRevision + 1`.
seed_revision : Option ℕ → ℕ
seed_revision none = 0
seed_revision (some revision) = revision + 1

-- materializeCellIfFresh: the revision of a new cell is past that of the evicted one, whose record
-- is used up.
pub materialize_cell : EvictionState → NodeId → GraphNodeState → EvictionState
unfolding get put delete make_graph_cell_state seed_revision
materialize_cell s node_id initial = record s {
  evicted_revision_by_node_id = delete node_id s.evicted_revision_by_node_id;
  nodes =
      put node_id
        (make_graph_cell_state initial (seed_revision (get node_id s.evicted_revision_by_node_id)))
        s.nodes;
}
