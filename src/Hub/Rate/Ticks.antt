-- ===== src/Hub/Rate/Ticks.antt =====
-- advanceRate of apps/hub/src/rate.ts against the ticks of a clock.
use Prim.Native.Nat.{max}
use frond.Shared.{
  ℕ, zero, suc, ◌+◌, ◌-◌, ◌≤◌, ◌≡◌, refl, sym, ap, ◌∙◌, inl, inr, List, [], ◌∷◌, ◌++◌, append_assoc,
  append-nil, arith, length, length-append, leb, drop, Bool-cases,
}
use frond.Hub.Rate.{
  rate_bucket_count, RateWindow, IsWindow, bucket_start, zeroed, advance_rate, shift_of,
}

-- A second passes: the oldest bucket goes, and an empty one comes.
abbrev pub tick : List ℕ → List ℕ
tick [] = []
tick (b ∷ bs) = bs ++ 0 ∷ []

abbrev pub ticks : ℕ → List ℕ → List ℕ
ticks zero bs = bs
ticks (suc n) bs = ticks n (tick bs)

drop-snoc :
    (n : ℕ) (bs : List ℕ) (b : ℕ) → n ≤ length bs → drop n (bs ++ b ∷ []) ≡ drop n bs ++ b ∷ []
drop-snoc zero bs b h = refl
drop-snoc (suc n) [] b h = absurd (omega arith)
drop-snoc (suc n) (c ∷ bs) b h = drop-snoc n bs b (omega arith)

ticks-drop : (n : ℕ) (bs : List ℕ) → n ≤ length bs → ticks n bs ≡ drop n bs ++ zeroed n
ticks-drop zero bs h = sym (append-nil bs)
ticks-drop (suc n) [] h = absurd (omega arith)
ticks-drop (suc n) (b ∷ bs) h =
    ticks-drop n (bs ++ 0 ∷ []) (omega (arith, length-append bs (0 ∷ [])))
    ∙ ap (λ l. l ++ zeroed n) (drop-snoc n bs 0 (omega arith))
    ∙ append_assoc (drop n bs) (0 ∷ []) (zeroed n)

zeroed-snoc : (n : ℕ) → zeroed n ++ 0 ∷ [] ≡ zeroed (suc n)
zeroed-snoc zero = refl
zeroed-snoc (suc n) = ap (λ l. 0 ∷ l) (zeroed-snoc n)

ticks-zeroed : (n count : ℕ) → ticks n (zeroed count) ≡ zeroed count
ticks-zeroed zero count = refl
ticks-zeroed (suc n) zero = ticks-zeroed n zero
ticks-zeroed (suc n) (suc count) = ap (ticks n) (zeroed-snoc count) ∙ ticks-zeroed n (suc count)

ticks-add : (m n : ℕ) (bs : List ℕ) → ticks (m + n) bs ≡ ticks n (ticks m bs)
ticks-add zero n bs = ground arith
ticks-add (suc m) n bs =
    let e : suc m + n ≡ suc (m + n) = omega arith in rw (e) (ticks-add m n (tick bs))

drop-all : (bs : List ℕ) → drop (length bs) bs ≡ []
drop-all [] = refl
drop-all (b ∷ bs) = drop-all bs

ticks-past : (n : ℕ) (bs : List ℕ) → length bs ≤ n → ticks n bs ≡ zeroed (length bs)
ticks-past n bs h =
    let e : n ≡ length bs + (n - length bs) = omega arith in
    ap (λ k. ticks k bs) e
    ∙ ticks-add (length bs) (n - length bs) bs
    ∙ ap (ticks (n - length bs))
        (ticks-drop (length bs) bs (omega arith) ∙ ap (λ l. l ++ zeroed (length bs)) (drop-all bs))
    ∙ ticks-zeroed (n - length bs) (length bs)

window_eq :
    (bs cs : List ℕ) (at other : ℕ)
    → bs ≡ cs
    → at ≡ other
    → ◌≡◌ {A = RateWindow}
        (record { buckets = bs; bucket_at = at })
        (record { buckets = cs; bucket_at = other })
window_eq bs cs at other e f = rw (e, f) refl

-- Advancing a window is one tick for each second that the clock is past it, even for a clock that is
-- minutes ahead, and nothing for one that is behind; the window then starts at the later of the two.
pub advance_rate-eq-ticks :
    (window : RateWindow) (now : ℕ)
    → IsWindow window
    → advance_rate window now ≡ record {
      buckets = ticks (shift_of window now) window.buckets;
      bucket_at = max window.bucket_at (bucket_start now);
    }
unfolding advance_rate
advance_rate-eq-ticks window now h = elim (Bool-cases (leb (shift_of window now) 0)) [
  | inl e ↦
      let still : shift_of window now ≡ 0 = ground (arith, e) in
      rw (e, advance_rate)
        (window_eq _ _ _ _ (sym (ap (λ n. ticks n window.buckets) still))
          (omega (arith, still, h.on_grid)))
  | inr e ↦ elim (Bool-cases (leb rate_bucket_count (shift_of window now))) [
    | inl f ↦
        rw (e, f, advance_rate)
          (window_eq _ _ _ _
            (sym (
              ticks-past (shift_of window now) window.buckets (ground (arith, f, h.full))
              ∙ ap zeroed h.full))
            (ground (arith, e)))
    | inr f ↦
        rw (e, f, advance_rate)
          (window_eq _ _ _ _
            (sym (ticks-drop (shift_of window now) window.buckets (ground (arith, f, h.full))))
            (ground (arith, e)))
  ]
]
