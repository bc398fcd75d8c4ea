-- ===== src/Hub/Ring/Search.antt =====
-- The binary search of indexAfter in apps/hub/src/retention.ts.
use frond.Shared.{
  ℕ, zero, suc, ◌+◌, ◌-◌, ◌≤◌, ◌<◌, ◌≡◌, refl, Bool, true, false, some, List, [], ◌∷◌, arith,
  length, ltb, leb, drop, keep, All, Bool-cases, inl, inr,
}
use frond.Hub.Ring.{EncodedEventRecord, at_most, two_32, middle, index_loop, index_after}

-- No record comes before one with a smaller sequence.
abbrev pub IsOrdered : List EncodedEventRecord → Type 0
IsOrdered [] = Unit
IsOrdered (r ∷ rs) = All (λ s. r.sequence ≤ s.sequence) rs × IsOrdered rs

-- Two halves of the interval, without the wrap-around.
middle_lem :
    (low high : ℕ)
    → low < high
    → low + high < two_32
    → (low ≤ middle low high) × (middle low high < high)
middle_lem low high l w = (omega arith, omega arith)

above_first :
    (r : EncodedEventRecord) (rs : List EncodedEventRecord) (since i : ℕ)
    → All (λ s. r.sequence ≤ s.sequence) rs
    → at_most since rs i ≡ true
    → leb r.sequence since ≡ true
above_first r [] since i h m = cc
above_first r (s ∷ rs) since zero h m = ground (arith, h.0)
above_first r (s ∷ rs) since (suc i) h m = above_first r rs since i h.1 m

-- In an ordered list the records up to `since` come first.
at_most-IsOrdered :
    (rs : List EncodedEventRecord) (since i j : ℕ)
    → IsOrdered rs
    → i ≤ j
    → at_most since rs j ≡ true
    → at_most since rs i ≡ true
at_most-IsOrdered [] since i j h le m = m
at_most-IsOrdered (r ∷ rs) since zero zero h le m = m
at_most-IsOrdered (r ∷ rs) since zero (suc j) h le m = above_first r rs since j h.0 m
at_most-IsOrdered (r ∷ rs) since (suc i) zero h le m = absurd (omega arith)
at_most-IsOrdered (r ∷ rs) since (suc i) (suc j) h le m =
    at_most-IsOrdered rs since i j h.1 (omega arith) m

-- The records before the index are up to `since`, and those from it on are not.
pub record Splits (rs : List EncodedEventRecord) (since low high : ℕ) : Type 0 where
  pub before : (i : ℕ) → i < low → at_most since rs i ≡ true
  pub after : (i : ℕ) → high ≤ i → at_most since rs i ≡ false

index_loop-Splits :
    (fuel : ℕ) (rs : List EncodedEventRecord) (since low high : ℕ)
    → IsOrdered rs
    → low ≤ high
    → high - low < fuel
    → high + high < two_32
    → Splits rs since low high
    → (i : ℕ) × (index_loop fuel rs since low high ≡ some i) × Splits rs since i i
unfolding index_loop
index_loop-Splits zero rs since low high o le f w s = absurd (omega arith)
index_loop-Splits (suc fuel) rs since low high o le f w s = elim (Bool-cases (ltb low high)) [
  | inr e ↦ (low, rw (e, index_loop) refl, same (ground (arith, e)))
  | inl e ↦
      let m = middle_lem low high (ground (arith, e)) (omega arith) in
      elim (Bool-cases (at_most since rs (middle low high))) [
        | inl a ↦
            let (i, found, split) =
              index_loop-Splits fuel rs since (middle low high + 1) high o (omega (arith, m))
                (omega (arith, m)) w
                (record {
                  before = λ j l. at_most-IsOrdered rs since j (middle low high) o (omega arith) a;
                  after = s.after;
                }) in
            (i, rw (e, a, index_loop) found, split)
        | inr a ↦
            let (i, found, split) =
              index_loop-Splits fuel rs since low (middle low high) o (omega (arith, m))
                (omega (arith, m)) (omega (arith, m))
                (record {
                  before = s.before;
                  after =
                      λ j l. ground (arith, at_most-IsOrdered rs since (middle low high) j o l, a);
                }) in
            (i, rw (e, a, index_loop) found, split)
      ]
]
  where
    same : high ≤ low → Splits rs since low low
    same h = record { before = s.before; after = λ i l. s.after i (omega arith) }

past_end : (rs : List EncodedEventRecord) (since i : ℕ) → length rs ≤ i → at_most since rs i ≡ false
past_end [] since i h = refl
past_end (r ∷ rs) since zero h = absurd (omega arith)
past_end (r ∷ rs) since (suc i) h = past_end rs since i (omega arith)

abbrev pub newer : ℕ → EncodedEventRecord → Bool
newer since r = ltb since r.sequence

keep-none :
    (rs : List EncodedEventRecord) (since : ℕ)
    → ((i : ℕ) → at_most since rs i ≡ false)
    → rs ≡ keep (newer since) rs
keep-none [] since h = refl
keep-none (r ∷ rs) since h = ground (arith, h 0, keep-none rs since (λ i. h (suc i)))

Splits-drop :
    (rs : List EncodedEventRecord) (since i : ℕ)
    → Splits rs since i i
    → drop i rs ≡ keep (newer since) rs
Splits-drop rs since zero s = keep-none rs since (λ i. s.after i (omega arith))
Splits-drop [] since (suc i) s = refl
Splits-drop (r ∷ rs) since (suc i) s = ground (
  arith,
  s.before 0 (omega arith),
  Splits-drop rs since i (record {
    before = λ j l. s.before (suc j) (omega arith);
    after = λ j l. s.after (suc j) (omega arith);
  }),
)

-- The search ends, and what stands from the index it finds on is exactly the records that are newer
-- than `since`, for a list that is ordered by sequence and shorter than 2^31.
pub index_after_exact :
    (rs : List EncodedEventRecord) (since : ℕ)
    → IsOrdered rs
    → length rs + length rs < two_32
    → (i : ℕ) × (index_after rs since ≡ some i) × (drop i rs ≡ keep (newer since) rs)
unfolding index_after
index_after_exact rs since o w =
    let (i, found, split) =
      index_loop-Splits (suc (length rs)) rs since 0 (length rs) o (omega arith) (omega arith) w
        (record { before = λ j l. absurd (omega arith); after = past_end rs since }) in
    (i, found, Splits-drop rs since i split)
