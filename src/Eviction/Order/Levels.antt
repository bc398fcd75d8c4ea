-- ===== src/Eviction/Order/Levels.antt =====
-- Lists of nodes with levels, as the queue of dependencyDepth of
-- packages/core/src/graph/lifecycle/eviction.ts is one.
use frond.Shared.{
  ℕ, ◌+◌, ◌≤◌, ◌≡◌, ◌⊎◌, inl, inr, true, List, [], ◌∷◌, ◌++◌, ◌==◌, string_eq, has, arith, All,
  Bool-cases,
}
use frond.Types.Live.{NodeId}
use frond.Eviction.Order.{at_depth, node_ids}

-- The node is in the list, at a level of at most `k`.
abbrev pub At : NodeId → ℕ → List (NodeId × ℕ) → Type 0
At c k [] = ⊥
At c k ((x, m) ∷ xs) = ((x ≡ c) × (m ≤ k)) ⊎ At c k xs

-- Levels rise from `k` on.
abbrev pub Rising : ℕ → List (NodeId × ℕ) → Type 0
Rising k [] = Unit
Rising k ((x, m) ∷ xs) = (k ≤ m) × Rising m xs

-- A queue behind a level: they rise, to one more than that of its head.
abbrev pub IsQueue : ℕ → List (NodeId × ℕ) → Type 0
IsQueue k [] = Unit
IsQueue k ((x, m) ∷ xs) = (k ≤ m) × Rising m xs × All (λ y. y.1 ≤ m + 1) xs

raised : (k n : ℕ) (xs : List (NodeId × ℕ)) → k ≤ n → All (λ y. y.1 ≤ k) xs → All (λ y. y.1 ≤ n) xs
raised k n [] le h = tt
raised k n (x ∷ xs) le h = (omega (arith, h.0), raised k n xs le h.1)

pub Rising-IsQueue :
    (k : ℕ) (xs : List (NodeId × ℕ)) → Rising k xs → All (λ y. y.1 ≤ k + 1) xs → IsQueue k xs
Rising-IsQueue k [] h a = tt
Rising-IsQueue k ((x, m) ∷ xs) h a = (h.0, h.1, raised (k + 1) (m + 1) xs (omega (arith, h.0)) a.1)

at_depth-Rising : (k n : ℕ) (ds : List NodeId) → k ≤ n → Rising k (at_depth n ds)
at_depth-Rising k n [] le = tt
at_depth-Rising k n (d ∷ ds) le = (le, at_depth-Rising n n ds (omega arith))

pub append-Rising :
    (k n : ℕ) (xs : List (NodeId × ℕ)) (ds : List NodeId)
    → Rising k xs
    → All (λ y. y.1 ≤ n) xs
    → k ≤ n
    → Rising k (xs ++ at_depth n ds)
append-Rising k n [] ds h a le = at_depth-Rising k n ds le
append-Rising k n ((x, m) ∷ xs) ds h a le = (h.0, append-Rising m n xs ds h.1 a.1 a.0)

pub All-at_depth :
    (P : NodeId × ℕ → Type 0) (xs : List (NodeId × ℕ)) (ds : List NodeId) (n : ℕ)
    → All P xs
    → ((d : NodeId) → has d ds ≡ true → P (d, n))
    → All P (xs ++ at_depth n ds)
unfolding has
All-at_depth P [] [] n h each = tt
All-at_depth P [] (d ∷ ds) n h each = (
  each d (ground (arith, string_eq.beq_iff d d)),
  All-at_depth P [] ds n tt (λ e k. each e (ground (arith, k))),
)
All-at_depth P (x ∷ xs) ds n h each = (h.0, All-at_depth P xs ds n h.1 each)

pub At-append :
    (c : NodeId) (k n : ℕ) (xs : List (NodeId × ℕ)) (ds : List NodeId)
    → (At c k xs → At c k (xs ++ at_depth n ds))
      × (has c ds ≡ true → n ≤ k → At c k (xs ++ at_depth n ds))
unfolding has
At-append c k n [] [] = (λ h. h, λ h le. absurd (ground (arith, h)))
At-append c k n [] (d ∷ ds) = (
  λ h. absurd h,
  λ h le. elim (Bool-cases (d == c)) [
    | inl e ↦ inl ((string_eq.beq_iff d c).0 e, le)
    | inr e ↦ inr ((At-append c k n [] ds).1 (ground (arith, h, e)) le)
  ],
)
At-append c k n ((x, m) ∷ xs) ds =
    let rest = At-append c k n xs ds in
    (λ h. elim h [ inl p ↦ inl p | inr q ↦ inr (rest.0 q) ], λ h le. inr (rest.1 h le))

-- A node that is in a list by name is at a level of it.
pub has-At :
    (c : NodeId) (k : ℕ) (xs : List (NodeId × ℕ))
    → All (λ y. y.1 ≤ k) xs
    → has c (node_ids xs) ≡ true
    → At c k xs
unfolding has
has-At c k [] a h = absurd (ground (arith, h))
has-At c k ((x, m) ∷ xs) a h = elim (Bool-cases (x == c)) [
  | inl e ↦ inl ((string_eq.beq_iff x c).0 e, a.0)
  | inr e ↦ inr (has-At c k xs a.1 (ground (arith, h, e)))
]

pub At-has : (c : NodeId) (k : ℕ) (xs : List (NodeId × ℕ)) → At c k xs → has c (node_ids xs) ≡ true
unfolding has
At-has c k [] h = absurd h
At-has c k ((x, m) ∷ xs) (inl p) = ground (arith, string_eq.beq_iff x c, p.0)
At-has c k ((x, m) ∷ xs) (inr q) = ground (arith, At-has c k xs q)

pub At-weaken : (c : NodeId) (j k : ℕ) (xs : List (NodeId × ℕ)) → j ≤ k → At c j xs → At c k xs
At-weaken c j k [] le h = h
At-weaken c j k ((x, m) ∷ xs) le (inl p) = inl (p.0, omega (arith, le, p.1))
At-weaken c j k ((x, m) ∷ xs) le (inr q) = inr (At-weaken c j k xs le q)

-- The level of the head, and with it some level, is at most `n`.
abbrev pub Below : List (NodeId × ℕ) → ℕ → Type 0
Below [] n = ⊥
Below ((x, l) ∷ xs) n = l ≤ n

Rising-At : (c : NodeId) (k n : ℕ) (xs : List (NodeId × ℕ)) → Rising k xs → At c n xs → k ≤ n
Rising-At c k n [] h a = absurd a
Rising-At c k n ((x, m) ∷ xs) h (inl p) = omega (arith, h.0, p.1)
Rising-At c k n ((x, m) ∷ xs) h (inr q) =
    let le = Rising-At c m n xs h.1 q in omega (arith, h.0, le)

pub At-Below :
    (c : NodeId) (d n : ℕ) (xs : List (NodeId × ℕ)) → IsQueue d xs → At c n xs → Below xs n
At-Below c d n [] h a = a
At-Below c d n ((x, m) ∷ xs) h (inl p) = p.1
At-Below c d n ((x, m) ∷ xs) h (inr q) = Rising-At c m n xs h.1 q

pub Below-suc : (xs : List (NodeId × ℕ)) (n : ℕ) → Below xs n → Below xs (n + 1)
Below-suc [] n h = h
Below-suc ((x, l) ∷ xs) n h = omega (arith, h)

pub IsQueue-lower : (d l : ℕ) (xs : List (NodeId × ℕ)) → d ≤ l → IsQueue l xs → IsQueue d xs
IsQueue-lower d l [] le h = tt
IsQueue-lower d l ((x, m) ∷ xs) le h = (omega (arith, le, h.0), h.1, h.2)
