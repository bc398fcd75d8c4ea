-- ===== src/Eviction/Order/Depth.antt =====
-- Distances over the dependents of a node, and the walk of dependencyDepth of
-- packages/core/src/graph/lifecycle/eviction.ts.
use mathlib.Core.Path.{subst}
use Prim.Native.Nat.{max}
use frond.Shared.{
  ℕ, zero, suc, ◌+◌, ◌≤◌, ◌≡◌, refl, ap, ◌∙◌, ◌⊎◌, inl, inr, true, false, some, List, [], ◌∷◌, ◌++◌,
  string_eq, has, arith, All, All-map, Bool-cases,
}
use frond.Types.Live.{NodeId}
use frond.Eviction.Closure.{EdgeSnapshot, dependents}
use frond.Eviction.Order.{at_depth, depth_fuel, depth_loop, dependency_depth, node_ids}
use frond.Eviction.Order.Levels.{
  At, IsQueue, Below, append-Rising, Rising-IsQueue, All-at_depth, At-append, has-At, At-has,
  At-weaken, At-Below, Below-suc, IsQueue-lower,
}

-- A walk over dependents, of a length.
pub data Walk (edges : List EdgeSnapshot) (from : NodeId) : NodeId → ℕ → Type 0 where
  start : Walk edges from from 0
  onward :
      {to : NodeId} {n : ℕ} (next : NodeId)
      → Walk edges from to n
      → has next (dependents edges to) ≡ true
      → Walk edges from next (n + 1)

-- A node at this distance: there is a walk of this length, and no shorter one.
pub record IsAway (edges : List EdgeSnapshot) (from to : NodeId) (distance : ℕ) : Type 0 where
  pub walk : Walk edges from to distance
  pub shortest : (n : ℕ) → Walk edges from to n → distance ≤ n

-- The greatest distance: whatever can be reached is as near, and some node is that far.
pub record IsDepth (edges : List EdgeSnapshot) (from : NodeId) (depth : ℕ) : Type 0 where
  pub near :
      (to : NodeId) (n : ℕ)
      → Walk edges from to n
      → (m : ℕ) × Walk edges from to m × (m ≤ depth) × (m ≤ n)
  pub farthest : NodeId
  pub far : IsAway edges from farthest depth

module _ (edges : List EdgeSnapshot) (from : NodeId) where
  -- A node stands among the entered ones or in the queue, at a level of at most `k`.
  abbrev Known : List (NodeId × ℕ) → List (NodeId × ℕ) → NodeId → ℕ → Type 0
  Known marks queue c k = At c k marks ⊎ At c k queue

  abbrev IsMarked : ℕ → NodeId × ℕ → Type 0
  IsMarked depth e = Walk edges from e.0 e.1 × (e.1 ≤ depth)

  -- The dependents of an entered node are known, one level on.
  abbrev IsClosed : List (NodeId × ℕ) → List (NodeId × ℕ) → NodeId × ℕ → Type 0
  IsClosed marks queue e =
      (c : NodeId) → has c (dependents edges e.0) ≡ true → Known marks queue c (e.1 + 1)

  -- The walk over the dependents, with the levels of the nodes that it has entered.
  record IsSearch (depth : ℕ) (marks queue : List (NodeId × ℕ)) : Type 0 where
    queued : IsQueue depth queue
    walks : All (λ e. Walk edges from e.0 e.1) queue
    marked : All (IsMarked depth) marks
    root : Known marks queue from 0
    closed : All (IsClosed marks queue) marks
    top : NodeId
    away : IsAway edges from top depth

  All-At :
      (marks queue xs : List (NodeId × ℕ)) (to next : NodeId) (n : ℕ)
      → All (IsClosed marks queue) xs
      → At to n xs
      → has next (dependents edges to) ≡ true
      → Known marks queue next (n + 1)
  All-At marks queue [] to next n h a e = absurd a
  All-At marks queue ((x, m) ∷ xs) to next n h (inl p) e =
      let le : m + 1 ≤ n + 1 = omega (arith, p.1) in
      elim (h.0 next (ap (λ y. has next (dependents edges y)) p.0 ∙ e)) [
        | inl q ↦ inl (At-weaken next (m + 1) (n + 1) marks le q)
        | inr q ↦ inr (At-weaken next (m + 1) (n + 1) queue le q)
      ]
  All-At marks queue ((x, m) ∷ xs) to next n h (inr q) e = All-At marks queue xs to next n h.1 q e

  -- What a walk of some length reaches has been entered by then, or the queue is not past it.
  reached :
      (depth : ℕ) (marks queue : List (NodeId × ℕ)) (to : NodeId) (n : ℕ)
      → IsSearch depth marks queue
      → Walk edges from to n
      → At to n marks ⊎ Below queue n
  reached depth marks queue _ _ s start = elim s.root [
    | inl a ↦ inl a
    | inr a ↦ inr (At-Below from depth 0 queue s.queued a)
  ]
  reached depth marks queue _ _ s (onward {to} {n} next w e) =
      elim (reached depth marks queue to n s w) [
        | inr b ↦ inr (Below-suc queue n b)
        | inl a ↦ elim (All-At marks queue marks to next n s.closed a e) [
          | inl q ↦ inl q
          | inr q ↦ inr (At-Below next depth (n + 1) queue s.queued q)
        ]
      ]

  mark-walk :
      (depth : ℕ) (xs : List (NodeId × ℕ)) (to : NodeId) (n : ℕ)
      → All (IsMarked depth) xs
      → At to n xs
      → (m : ℕ) × Walk edges from to m × (m ≤ depth) × (m ≤ n)
  mark-walk depth [] to n h a = absurd a
  mark-walk depth ((x, m) ∷ xs) to n h (inl p) =
      (m, subst (λ y. Walk edges from y m) p.0 h.0.0, h.0.1, p.1)
  mark-walk depth ((x, m) ∷ xs) to n h (inr q) = mark-walk depth xs to n h.1 q

  -- The head of the queue was entered before.
  again-IsSearch :
      (depth l : ℕ) (x : NodeId) (marks queue : List (NodeId × ℕ))
      → has x (node_ids marks) ≡ true
      → IsSearch depth marks ((x, l) ∷ queue)
      → IsSearch depth marks queue
  again-IsSearch depth l x marks queue seen s =
      let there : At x depth marks =
        has-At x depth marks
          (All-map (IsMarked depth) (λ y. y.1 ≤ depth) marks (λ e p. p.1) s.marked) seen in
      let moved : (c : NodeId) (k : ℕ) → Known marks ((x, l) ∷ queue) c k → Known marks queue c k =
        λ c k p. elim p [
          | inl a ↦ inl a
          | inr a ↦ elim a [
            | inr b ↦ inr b
            | inl b ↦ inl (
                subst (λ y. At y k marks) b.0
                  (At-weaken x depth k marks (omega (arith, s.queued.0, b.1)) there))
          ]
        ] in
      record {
        queued =
            IsQueue-lower depth l queue s.queued.0 (Rising-IsQueue l queue s.queued.1 s.queued.2);
        walks = s.walks.1;
        marked = s.marked;
        root = moved from 0 s.root;
        closed =
            All-map (IsClosed marks ((x, l) ∷ queue)) (IsClosed marks queue) marks
              (λ e p c h. moved c (e.1 + 1) (p c h)) s.closed;
        top = s.top;
        away = s.away;
      }

  -- It is entered now.
  entered-IsSearch :
      (depth l : ℕ) (x : NodeId) (marks queue : List (NodeId × ℕ))
      → has x (node_ids marks) ≡ false
      → IsSearch depth marks ((x, l) ∷ queue)
      → IsSearch l ((x, l) ∷ marks) (queue ++ at_depth (l + 1) (dependents edges x))
  entered-IsSearch depth l x marks queue new s =
      let ds = dependents edges x in
      let after = queue ++ at_depth (l + 1) ds in
      let moved : (c : NodeId) (k : ℕ)
          → Known marks ((x, l) ∷ queue) c k
          → Known ((x, l) ∷ marks) after c k =
        λ c k p. elim p [
          | inl a ↦ inl (inr a)
          | inr a ↦ elim a [
            | inl b ↦ inl (inl b)
            | inr b ↦ inr ((At-append c k (l + 1) queue ds).0 b)
          ]
        ] in
      record {
        queued =
            Rising-IsQueue l after
              (append-Rising l (l + 1) queue ds s.queued.1 s.queued.2 (omega arith))
              (All-at_depth (λ y. y.1 ≤ l + 1) queue ds (l + 1) s.queued.2 (λ d h. omega arith));
        walks =
            All-at_depth (λ e. Walk edges from e.0 e.1) queue ds (l + 1) s.walks.1
              (λ d h. onward d s.walks.0 h);
        marked = (
          (s.walks.0, omega arith),
          All-map (IsMarked depth) (IsMarked l) marks (λ e p. (p.0, omega (arith, p.1, s.queued.0)))
              s.marked,
        );
        root = moved from 0 s.root;
        closed = (
          λ c h. inr ((At-append c (l + 1) (l + 1) queue ds).1 h (omega arith)),
          All-map (IsClosed marks ((x, l) ∷ queue)) (IsClosed ((x, l) ∷ marks) after) marks
              (λ e p c h. moved c (e.1 + 1) (p c h)) s.closed,
        );
        top = x;
        away = record {
          walk = s.walks.0;
          shortest = λ n w. elim (reached depth marks ((x, l) ∷ queue) x n s w) [
            | inr b ↦ b
            | inl a ↦ absurd (ground (arith, new, At-has x n marks a))
          ];
        };
      }

  max_le : (m n : ℕ) → m ≤ n → max m n ≡ n
  max_le m n h = omega (arith, h)

  depth_loop_lem :
      (fuel depth d : ℕ) (marks queue : List (NodeId × ℕ))
      → IsSearch depth marks queue
      → depth_loop fuel edges depth (node_ids marks) queue ≡ some d
      → IsDepth edges from d
  unfolding depth_loop
  depth_loop_lem zero depth d marks queue s e = absurd (ground (arith, e))
  depth_loop_lem (suc fuel) depth d marks [] s e =
      let same : depth ≡ d = ground (arith, e) in
      subst (λ k. IsDepth edges from k) same
        (record {
          near = λ to n w. elim (reached depth marks [] to n s w) [
            | inl a ↦ mark-walk depth marks to n s.marked a
            | inr b ↦ absurd b
          ];
          farthest = s.top;
          far = s.away;
        })
  depth_loop_lem (suc fuel) depth d marks ((x, l) ∷ queue) s e =
      elim (Bool-cases (has x (node_ids marks))) [
        | inl seen ↦
            depth_loop_lem fuel depth d marks queue (again-IsSearch depth l x marks queue seen s)
              (ground (arith, seen, e))
        | inr new ↦
            depth_loop_lem fuel l d ((x, l) ∷ marks)
              (queue ++ at_depth (l + 1) (dependents edges x))
              (entered-IsSearch depth l x marks queue new s)
              (ground (arith, new, e, max_le depth l s.queued.0))
      ]

-- The depth of a node is the distance of its farthest dependent.
pub dependency_depth-IsDepth :
    (edges : List EdgeSnapshot) (node_id : NodeId) (d : ℕ)
    → dependency_depth edges node_id ≡ some d
    → IsDepth edges node_id d
unfolding dependency_depth
dependency_depth-IsDepth edges node_id d e =
    depth_loop_lem edges node_id (depth_fuel edges) 0 d [] ((node_id, 0) ∷ [])
      (record {
        queued = (omega arith, tt, tt);
        walks = (start, tt);
        marked = tt;
        root = inr (inl (refl, omega arith));
        closed = tt;
        top = node_id;
        away = record { walk = start; shortest = λ n w. omega arith };
      })
      e
