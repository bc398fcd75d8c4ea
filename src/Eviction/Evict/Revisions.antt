-- ===== src/Eviction/Evict/Revisions.antt =====
-- The revision of a node over an eviction and a new materialization, in
-- packages/core/src/graph/lifecycle/eviction.ts and planning/plan.ts.
use frond.Shared.{
  ◌+◌, ◌≤◌, ◌<◌, ◌≡◌, refl, inl, inr, true, false, none, some, List, [], ◌∷◌, arith, ◌==◌,
  string_eq, has, keep, not, Bool-cases, Option-cases, beq_refl, if_both,
}
use frond.Shared.Maps.{get, get-put, get-delete}
use frond.Types.Live.{NodeId, GraphFailure}
use frond.Cell.Phase.{ReadyData, CellPhaseReadyLookup, phase_ready_data}
use frond.Cell.Transitions.{GraphNodeState, make_graph_cell_state, replace}
use frond.Eviction.Evict.{
  GraphNodeCell, EvictionState, release_cell, shut_down, evict_node, evict_nodes, seed_revision,
  materialize_cell,
}

has-others :
    (m n : NodeId) (actors : List NodeId)
    → (m == n) ≡ false
    → has n (keep (λ a. not (a == m)) actors) ≡ has n actors
unfolding has
has-others m n [] d = refl
has-others m n (a ∷ actors) d = ground (
  arith,
  has-others m n actors d,
  d,
  string_eq.beq_iff a m,
  string_eq.beq_iff a n,
  string_eq.beq_iff m n,
)

module _ (interrupt : NodeId → GraphNodeCell → GraphNodeCell)
    (teardown : GraphNodeCell → ReadyData → GraphNodeCell × List GraphFailure)
    (interrupt_le : (n : NodeId) (c : GraphNodeCell) → c.revision ≤ (interrupt n c).revision)
    (teardown_le : (c : GraphNodeCell) (r : ReadyData)
      → c.revision ≤ (teardown c r).0.revision) where
  release_cell_lt :
      (cell : GraphNodeCell) (lookup : CellPhaseReadyLookup)
      → phase_ready_data cell.current.phase ≡ lookup
      → cell.revision < (release_cell interrupt teardown cell).0.revision
  unfolding release_cell replace
  release_cell_lt cell (CellPhaseReadyLookup.found r) e = ground (arith, e, teardown_le cell r)
  release_cell_lt cell (CellPhaseReadyLookup.missing tag) e = ground (arith, e)

  shut_down_lt :
      (actors : List NodeId) (n : NodeId) (cell : GraphNodeCell)
      → cell.revision < (shut_down interrupt teardown actors n cell).0.revision
  unfolding shut_down
  shut_down_lt actors n cell =
      if_both (λ (r : GraphNodeCell × List GraphFailure). cell.revision < r.0.revision)
        (has n actors) _ _
        (λ e. omega (arith, interrupt_le n cell, release_cell_lt (interrupt n cell) _ refl))
        (λ e. release_cell_lt cell _ refl)

  -- The node is gone, and the revision that its cell had when it was shut down is on record for it.
  record Recorded (n : NodeId) (actors : List NodeId) (cell : GraphNodeCell) (s : EvictionState)
      : Type 0 where
    gone : get n s.nodes ≡ none
    found :
        get n s.evicted_revision_by_node_id
        ≡ some (shut_down interrupt teardown actors n cell).0.revision

  evict_node-Recorded :
      (n m : NodeId) (actors : List NodeId) (evicted : GraphNodeCell) (s : EvictionState)
      → Recorded n actors evicted s
      → Recorded n actors evicted (evict_node interrupt teardown s m).0
  unfolding evict_node
  evict_node-Recorded n m actors evicted s h = elim (Option-cases (get m s.nodes)) [
    | inl e ↦ rw (e, evict_node) h
    | inr (cell, e) ↦
        rw (e, evict_node)
          (record {
            gone = ground (arith, get-delete m n s.nodes, h.gone);
            found = ground (
              arith,
              get-put m n (shut_down interrupt teardown s.actors m cell).0.revision
                  s.evicted_revision_by_node_id,
              string_eq.beq_iff m n,
              h.gone,
              h.found,
              e,
            );
          })
  ]

  evict_nodes-Recorded :
      (n : NodeId) (actors : List NodeId) (evicted : GraphNodeCell) (s : EvictionState)
      (ns : List NodeId)
      → Recorded n actors evicted s
      → Recorded n actors evicted (evict_nodes interrupt teardown s ns).0
  unfolding evict_nodes
  evict_nodes-Recorded n actors evicted s [] h = h
  evict_nodes-Recorded n actors evicted s (m ∷ ms) h =
      evict_nodes-Recorded n actors evicted (evict_node interrupt teardown s m).0 ms
        (evict_node-Recorded n m actors evicted s h)

  evicted_lem :
      (n : NodeId) (s : EvictionState) (cell : GraphNodeCell)
      → get n s.nodes ≡ some cell
      → Recorded n s.actors cell (evict_node interrupt teardown s n).0
  unfolding evict_node
  evicted_lem n s cell e =
      rw (e, evict_node)
        (record {
          gone = ground (arith, get-delete n n s.nodes, beq_refl n);
          found = ground (
            arith,
            get-put n n (shut_down interrupt teardown s.actors n cell).0.revision
                s.evicted_revision_by_node_id,
            beq_refl n,
          );
        })

  other_kept :
      (n m : NodeId) (s : EvictionState)
      → (m == n) ≡ false
      → get n (evict_node interrupt teardown s m).0.nodes ≡ get n s.nodes
  unfolding evict_node
  other_kept n m s d = elim (Option-cases (get m s.nodes)) [
    | inl e ↦ rw (e, evict_node) refl
    | inr (cell, e) ↦ rw (e, evict_node) (ground (arith, get-delete m n s.nodes, d))
  ]

  other_actor :
      (n m : NodeId) (s : EvictionState)
      → (m == n) ≡ false
      → has n (evict_node interrupt teardown s m).0.actors ≡ has n s.actors
  unfolding evict_node
  other_actor n m s d = elim (Option-cases (get m s.nodes)) [
    | inl e ↦ rw (e, evict_node) refl
    | inr (cell, e) ↦ rw (e, evict_node) (has-others m n s.actors d)
  ]

  -- A cell is shut down in the same way wherever the node has an actor, or has none.
  same_actors :
      (n : NodeId) (these those : List NodeId) (cell : GraphNodeCell) (s : EvictionState)
      → has n these ≡ has n those
      → Recorded n these cell s
      → Recorded n those cell s
  unfolding shut_down
  same_actors n these those cell s same h = record {
    gone = h.gone;
    found = ground (arith, same, h.found);
  }

  evict_nodes_lem :
      (n : NodeId) (s : EvictionState) (cell : GraphNodeCell) (ns : List NodeId)
      → get n s.nodes ≡ some cell
      → has n ns ≡ true
      → Recorded n s.actors cell (evict_nodes interrupt teardown s ns).0
  unfolding evict_nodes has
  evict_nodes_lem n s cell [] e h = cc
  evict_nodes_lem n s cell (m ∷ ms) e h = elim (Bool-cases (m == n)) [
    | inl d ↦
        let same : m ≡ n = (string_eq.beq_iff m n).0 d in
        rw same (
          evict_nodes-Recorded n s.actors cell (evict_node interrupt teardown s n).0 ms
            (evicted_lem n s cell e))
    | inr d ↦
        let mid = (evict_node interrupt teardown s m).0 in
        same_actors n mid.actors s.actors cell _ (other_actor n m s d) (
          evict_nodes_lem n mid cell ms (ground (arith, other_kept n m s d, e))
            (ground (arith, h, d)))
  ]

  -- A node that is evicted, alone or with others, and then materialized again starts past every
  -- revision it had: the last one, at which its cell was shut down, is itself past the one before the
  -- eviction, and the new cell's is past that. No record of the node is left behind. This is where
  -- neither the interruption of its submissions nor its teardown sets its revision back.
  pub materialize_cell-evict_nodes :
      (n : NodeId) (s : EvictionState) (cell : GraphNodeCell) (ns : List NodeId)
      (initial : GraphNodeState)
      → get n s.nodes ≡ some cell
      → has n ns ≡ true
      → let after = materialize_cell (evict_nodes interrupt teardown s ns).0 n initial in
        (fresh : GraphNodeCell) × (get n after.nodes ≡ some fresh)
        × (fresh.current ≡ initial)
        × (cell.revision < (shut_down interrupt teardown s.actors n cell).0.revision)
        × ((shut_down interrupt teardown s.actors n cell).0.revision < fresh.revision)
        × (get n after.evicted_revision_by_node_id ≡ none)
  unfolding materialize_cell make_graph_cell_state seed_revision
  materialize_cell-evict_nodes n s cell ns initial e h =
      let k = evict_nodes_lem n s cell ns e h in
      let before = (evict_nodes interrupt teardown s ns).0 in
      let last = (shut_down interrupt teardown s.actors n cell).0.revision in
      (
        record { current = initial; revision = last + 1 },
        ground (
          arith,
          k.found,
          get-put n n (record { current = initial; revision = last + 1 }) before.nodes,
          beq_refl n,
        ),
        refl,
        shut_down_lt s.actors n cell,
        omega arith,
        ground (arith, get-delete n n before.evicted_revision_by_node_id, beq_refl n),
      )
