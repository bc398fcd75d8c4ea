-- ===== src/Eviction/Closure/Reach.antt =====
-- The closure of packages/core/src/graph/lifecycle/eviction.ts against the edges of the graph.
use frond.Shared.{
  ℕ, zero, suc, ◌+◌, ◌≤◌, ◌<◌, ◌≡◌, ◌≢◌, ◌↔◌, ◌⊎◌, inl, inr, true, not, ◌||◌, ◌&&◌, none, some,
  List, [], ◌∷◌, ◌++◌, arith, ◌==◌, string_eq, has, has-append, length, length-append, Bool-cases,
  Option-cases, beq_refl,
}
use frond.Shared.Sort.{has-eq}
use frond.Shared.Seen.{unseen, unseen_lt, unseen-snoc, unseen-le-length}
use frond.Types.Live.{NodeId}
use frond.Eviction.Closure.{
  EdgeSnapshot, dependents, sources, visit_dependents, initial_visited, closure_loop, closure_fuel,
  reverse_dependency_closure,
}

-- A node that depends on a root, through one edge or more.
pub data Dependent (edges : List EdgeSnapshot) (roots : List NodeId) : NodeId → Type 0 where
  of_root :
      {node_id : NodeId} (root : NodeId)
      → has root roots ≡ true
      → has node_id (dependents edges root) ≡ true
      → Dependent edges roots node_id
  of_dependent :
      {node_id : NodeId} (middle : NodeId)
      → Dependent edges roots middle
      → has node_id (dependents edges middle) ≡ true
      → Dependent edges roots node_id

dependents-sources :
    (d node_id : NodeId) (edges : List EdgeSnapshot)
    → has d (dependents edges node_id) ≡ true
    → has d (sources edges) ≡ true
unfolding dependents has
dependents-sources d n [] h = h
dependents-sources d n (edge ∷ edges) h = ground (arith, dependents-sources d n edges)

visited-visit :
    (a : NodeId) (visited queue ds : List NodeId)
    → has a (visit_dependents visited queue ds).0 ≡ (has a visited || has a ds)
unfolding visit_dependents has
visited-visit a visited queue [] = ground arith
visited-visit a visited queue (d ∷ ds) = ground (
  arith,
  visited-visit a visited queue ds,
  visited-visit a (visited ++ d ∷ []) (queue ++ d ∷ []) ds,
  has-append a visited (d ∷ []),
  has-eq d a visited,
)

queue-visit :
    (a : NodeId) (visited queue ds : List NodeId)
    → has a (visit_dependents visited queue ds).1
      ≡ (has a queue || (not (has a visited) && has a ds))
unfolding visit_dependents has
queue-visit a visited queue [] = ground arith
queue-visit a visited queue (d ∷ ds) = ground (
  arith,
  queue-visit a visited queue ds,
  queue-visit a (visited ++ d ∷ []) (queue ++ d ∷ []) ds,
  has-append a visited (d ∷ []),
  has-append a queue (d ∷ []),
  has-eq d a visited,
)

-- A round takes no more from the unseen sources than it puts on the queue.
visit_measure :
    (xs visited queue ds : List NodeId)
    → ((d : NodeId) → has d ds ≡ true → has d xs ≡ true)
    → length (visit_dependents visited queue ds).1 + unseen (visit_dependents visited queue ds).0 xs
      ≤ length queue + unseen visited xs
unfolding visit_dependents has
visit_measure xs visited queue [] h = omega arith
visit_measure xs visited queue (d ∷ ds) h = ground (
  arith,
  visit_measure xs visited queue ds (λ a i. h a (ground (arith, i))),
  visit_measure xs (visited ++ d ∷ []) (queue ++ d ∷ []) ds (λ a i. h a (ground (arith, i))),
  length-append queue (d ∷ []),
  unseen-snoc d visited xs,
  unseen_lt d visited xs,
  h d,
  beq_refl d,
)

closure_loop_total :
    (fuel : ℕ) (edges : List EdgeSnapshot) (visited queue : List NodeId)
    → length queue + unseen visited (sources edges) < fuel
    → closure_loop fuel edges visited queue ≢ none
unfolding closure_loop
closure_loop_total zero edges visited queue h = absurd (omega arith)
closure_loop_total (suc fuel) edges visited [] h = λ e. cc
closure_loop_total (suc fuel) edges visited (current ∷ queue) h =
    closure_loop_total fuel edges _ _ (
      omega (
        arith,
        visit_measure (sources edges) visited queue (dependents edges current)
            (λ d. dependents-sources d current edges),
      ))

-- What the closure is to hold: a root that the graph has, or a dependent.
abbrev pub IsEvicted : List EdgeSnapshot → List NodeId → List NodeId → NodeId → Type 0
IsEvicted edges nodes roots a =
    ((has a roots ≡ true) × (has a nodes ≡ true)) ⊎ Dependent edges roots a

record Walk (edges : List EdgeSnapshot) (nodes roots visited queue : List NodeId) : Type 0 where
  sound : (a : NodeId) → has a visited ≡ true → IsEvicted edges nodes roots a
  queued : (a : NodeId) → has a queue ≡ true → (has a roots ≡ true) ⊎ Dependent edges roots a
  closed :
      (a d : NodeId)
      → (has a roots ≡ true) ⊎ (has a visited ≡ true)
      → has d (dependents edges a) ≡ true
      → (has a queue ≡ true) ⊎ (has d visited ≡ true)
  rooted : (a : NodeId) → has a roots ≡ true → has a nodes ≡ true → has a visited ≡ true

module _ (edges : List EdgeSnapshot) (nodes roots : List NodeId) where
  next-Dependent :
      (current d : NodeId)
      → (has current roots ≡ true) ⊎ Dependent edges roots current
      → has d (dependents edges current) ≡ true
      → Dependent edges roots d
  next-Dependent current d (inl r) h = Dependent.of_root current r h
  next-Dependent current d (inr m) h = Dependent.of_dependent current m h

  dependents-eq :
      (current a d : NodeId)
      → (current == a) ≡ true
      → has d (dependents edges a) ≡ true
      → has d (dependents edges current) ≡ true
  dependents-eq current a d e h = rw ((string_eq.beq_iff current a).0 e) h

  visit-Walk :
      (visited queue : List NodeId) (current : NodeId)
      → Walk edges nodes roots visited (current ∷ queue)
      → let after = visit_dependents visited queue (dependents edges current) in
        Walk edges nodes roots after.0 after.1
  unfolding has
  visit-Walk visited queue current w =
      let ds = dependents edges current in
      record {
        sound = λ a h. elim (Bool-cases (has a visited)) [
          | inl old ↦ w.sound a old
          | inr fresh ↦ inr (
              next-Dependent current a (w.queued current (ground (arith, beq_refl current)))
                (ground (arith, visited-visit a visited queue ds, h, fresh)))
        ];
        queued = λ a h. elim (Bool-cases (has a queue)) [
          | inl old ↦ w.queued a (ground (arith, old))
          | inr fresh ↦ inr (
              next-Dependent current a (w.queued current (ground (arith, beq_refl current)))
                (ground (arith, queue-visit a visited queue ds, h, fresh)))
        ];
        closed = λ a d i h. ground (
          arith,
          visited-visit a visited queue ds,
          visited-visit d visited queue ds,
          queue-visit a visited queue ds,
          w.closed a d,
          dependents-eq current a d,
        );
        rooted = λ a r n. ground (arith, visited-visit a visited queue ds, w.rooted a r n);
      }

  closure_loop-Walk :
      (fuel : ℕ) (visited queue closure : List NodeId)
      → Walk edges nodes roots visited queue
      → closure_loop fuel edges visited queue ≡ some closure
      → Walk edges nodes roots closure []
  unfolding closure_loop
  closure_loop-Walk zero visited queue closure w h = cc
  closure_loop-Walk (suc fuel) visited [] closure w h =
      let same : visited ≡ closure = cc in rw (← same) w
  closure_loop-Walk (suc fuel) visited (current ∷ queue) closure w h =
      closure_loop-Walk fuel _ _ closure (visit-Walk visited queue current w) h

  initial_visited_lem :
      (visited rs : List NodeId) (a : NodeId)
      → has a (initial_visited nodes visited rs) ≡ (has a visited || (has a rs && has a nodes))
  unfolding initial_visited has
  initial_visited_lem visited [] a = ground arith
  initial_visited_lem visited (r ∷ rs) a = ground (
    arith,
    initial_visited_lem visited rs a,
    initial_visited_lem (visited ++ r ∷ []) rs a,
    has-append a visited (r ∷ []),
    has-eq r a visited,
    has-eq r a nodes,
  )

  initial-Walk : Walk edges nodes roots (initial_visited nodes [] roots) roots
  unfolding has
  initial-Walk = record {
    sound = λ a h. inl (
      ground (arith, initial_visited_lem [] roots a),
      ground (arith, initial_visited_lem [] roots a),
    );
    queued = λ a h. inl h;
    closed = λ a d i h. ground (arith, initial_visited_lem [] roots a);
    rooted = λ a r n. ground (arith, initial_visited_lem [] roots a);
  }

  Dependent-visited :
      (closure : List NodeId) {a : NodeId}
      → Walk edges nodes roots closure []
      → Dependent edges roots a
      → has a closure ≡ true
  unfolding has
  Dependent-visited closure {a} w (Dependent.of_root root r h) =
      ground (arith, w.closed root a (inl r) h)
  Dependent-visited closure {a} w (Dependent.of_dependent middle m h) =
      ground (arith, w.closed middle a (inr (Dependent-visited closure w m)) h)

  Walk-lem :
      (closure : List NodeId) (a : NodeId)
      → Walk edges nodes roots closure []
      → (has a closure ≡ true) ↔ IsEvicted edges nodes roots a
  Walk-lem closure a w = (
    w.sound a,
    λ e. elim e [ inl r ↦ w.rooted a r.0 r.1 | inr d ↦ Dependent-visited closure w d ],
  )

  reverse_dependency_closure_total : reverse_dependency_closure edges nodes roots ≢ none
  unfolding reverse_dependency_closure
  reverse_dependency_closure_total =
      closure_loop_total (closure_fuel edges roots) edges (initial_visited nodes [] roots) roots
        (omega (arith, unseen-le-length (initial_visited nodes [] roots) (sources edges)))

  -- The walk that collects the nodes to evict ends, and what it collects is exactly the roots that
  -- the graph has and every node that depends on a root through one edge or more, cycles included.
  pub reverse_dependency_closure_exact :
      (closure : List NodeId) × (reverse_dependency_closure edges nodes roots ≡ some closure)
      × ((a : NodeId) → (has a closure ≡ true) ↔ IsEvicted edges nodes roots a)
  unfolding reverse_dependency_closure
  reverse_dependency_closure_exact =
      elim (Option-cases (reverse_dependency_closure edges nodes roots)) [
        | inl e ↦ absurd (reverse_dependency_closure_total e)
        | inr (closure, e) ↦ (
          closure,
          e,
          λ a.
              Walk-lem closure a
                (closure_loop-Walk (closure_fuel edges roots) _ _ closure initial-Walk e),
        )
      ]
