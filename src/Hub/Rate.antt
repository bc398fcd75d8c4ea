-- ===== src/Hub/Rate.antt =====
-- apps/hub/src/rate.ts: events for each second of the last minute. Times are in milliseconds since
-- the epoch, and a window starts on the grid of the buckets, so that the shift is a whole number of
-- buckets.
pub mod Ticks
use frond.Shared.{
  ℕ, zero, suc, ◌+◌, ◌-◌, ◌*◌, ◌/◌, ◌%◌, ◌≡◌, refl, ◌∙◌, List, [], ◌∷◌, ◌++◌, arith, if◌then◌else◌,
  if_both, length, length-append, length-drop, leb, drop,
}

abbrev pub rate_bucket_ms : ℕ
rate_bucket_ms = 1000

abbrev pub rate_bucket_count : ℕ
rate_bucket_count = 60

pub record RateWindow : Type 0 where
  pub buckets : List ℕ
  pub bucket_at : ℕ

abbrev pub bucket_start : ℕ → ℕ
bucket_start at = at / rate_bucket_ms * rate_bucket_ms

-- `new Array(count).fill(0)`.
abbrev pub zeroed : ℕ → List ℕ
zeroed zero = []
zeroed (suc count) = 0 ∷ zeroed count

unfoldable pub empty_rate : ℕ → RateWindow
empty_rate at = record { buckets = zeroed rate_bucket_count; bucket_at = bucket_start at }

-- The shift where `target` is not past the window is not positive, here 0.
unfoldable pub advance_rate : RateWindow → ℕ → RateWindow
advance_rate window now =
    let target = bucket_start now in
    let shift = (target - window.bucket_at) / rate_bucket_ms in
    if leb shift 0
    then window
    else if leb rate_bucket_count shift
    then record { buckets = zeroed rate_bucket_count; bucket_at = target }
    else record { buckets = drop shift window.buckets ++ zeroed shift; bucket_at = target }

-- `buckets[newest] = (buckets[newest] ?? 0) + count`; a window of buckets is not empty.
abbrev pub add_newest : List ℕ → ℕ → List ℕ
add_newest [] count = []
add_newest (b ∷ []) count = (b + count) ∷ []
add_newest (b ∷ c ∷ bs) count = b ∷ add_newest (c ∷ bs) count

unfoldable pub record_rate : RateWindow → ℕ → ℕ → RateWindow
unfolding advance_rate
record_rate window now count =
    let advanced = advance_rate window now in
    record { buckets = add_newest advanced.buckets count; bucket_at = advanced.bucket_at }

pub record IsWindow (window : RateWindow) : Type 0 where
  pub full : length window.buckets ≡ rate_bucket_count
  pub on_grid : window.bucket_at % rate_bucket_ms ≡ 0

length-zeroed : (count : ℕ) → length (zeroed count) ≡ count
length-zeroed zero = refl
length-zeroed (suc count) = omega (arith, length-zeroed count)

length-add_newest : (bs : List ℕ) (count : ℕ) → length (add_newest bs count) ≡ length bs
length-add_newest [] count = refl
length-add_newest (b ∷ []) count = refl
length-add_newest (b ∷ c ∷ bs) count = omega (arith, length-add_newest (c ∷ bs) count)

bucket_start-grid : (at : ℕ) → bucket_start at % rate_bucket_ms ≡ 0
bucket_start-grid at = omega arith

-- The number of whole buckets by which the clock is past the window.
abbrev pub shift_of : RateWindow → ℕ → ℕ
shift_of window now = (bucket_start now - window.bucket_at) / rate_bucket_ms

advance_rate-IsWindow :
    (window : RateWindow) (now : ℕ) → IsWindow window → IsWindow (advance_rate window now)
unfolding advance_rate
advance_rate-IsWindow window now h =
    if_both IsWindow (leb (shift_of window now) 0) _ _ (λ e. h)
      (λ e.
        if_both IsWindow (leb rate_bucket_count (shift_of window now)) _ _
          (λ f. record { full = refl; on_grid = bucket_start-grid now })
          (λ f. record {
            full = ground (
              arith,
              f,
              h.full,
              length-append (drop (shift_of window now) window.buckets)
                  (zeroed (shift_of window now)),
              length-drop (shift_of window now) window.buckets,
              length-zeroed (shift_of window now),
            );
            on_grid = bucket_start-grid now;
          }))

-- Advancing and recording keep sixty buckets, on the grid.
pub record_rate-IsWindow :
    (window : RateWindow) (now count : ℕ)
    → IsWindow window
    → IsWindow (advance_rate window now) × IsWindow (record_rate window now count)
unfolding record_rate
record_rate-IsWindow window now count h =
    let k = advance_rate-IsWindow window now h in
    (k, record { full = length-add_newest _ count ∙ k.full; on_grid = k.on_grid })
