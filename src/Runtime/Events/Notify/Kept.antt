-- ===== src/Runtime/Events/Notify/Kept.antt =====
-- What remember of packages/core/src/runtime/eventBus.ts keeps.
use Prim.Native.Nat.{min}
use frond.Shared.{
  ℕ, zero, suc, ◌+◌, ◌-◌, ◌≤◌, ◌≡◌, refl, some, List, [], ◌∷◌, ◌++◌, length, length-append,
  length-drop, drop, ltb, arith, Bool-cases, inl, inr, ◌==◌, nat_eq,
}
use frond.Shared.Int.{pos}
use frond.Runtime.Limits.{integer, allowed}
use frond.Runtime.Events.{
  RuntimeEvent, RuntimeEventRecord, RuntimeEventBus, remember, retained, events_within, last_events,
}

-- The records carry the numbers after `n`, one by one.
abbrev pub IsNumbered : ℕ → List RuntimeEventRecord → Type 0
IsNumbered n [] = Unit
IsNumbered n (r ∷ rs) = (r.sequence ≡ suc n) × IsNumbered (suc n) rs

-- The bus keeps the newest records, as many as it has room for, up to the last one.
pub record IsKept (bus : RuntimeEventBus) : Type 0 where
  pub full : length bus.events ≡ min bus.sequence bus.event_buffer_size
  pub numbered : IsNumbered (bus.sequence - length bus.events) bus.events

IsNumbered-append :
    (n : ℕ) (rs : List RuntimeEventRecord) (r : RuntimeEventRecord)
    → IsNumbered n rs
    → r.sequence ≡ suc (n + length rs)
    → IsNumbered n (rs ++ r ∷ [])
IsNumbered-append n [] r h e = (ground (arith, e), tt)
IsNumbered-append n (s ∷ rs) r h e = (h.0, IsNumbered-append (suc n) rs r h.1 (omega (arith, e)))

pub IsNumbered-same :
    (m n : ℕ) (rs : List RuntimeEventRecord) → m ≡ n → IsNumbered m rs → IsNumbered n rs
IsNumbered-same m n rs e h = rw (← e) h

pub IsNumbered-drop :
    (n k : ℕ) (rs : List RuntimeEventRecord)
    → k ≤ length rs
    → IsNumbered n rs
    → IsNumbered (n + k) (drop k rs)
IsNumbered-drop n zero rs le h = IsNumbered-same n (n + 0) rs (omega arith) h
IsNumbered-drop n (suc k) [] le h = tt
IsNumbered-drop n (suc k) (r ∷ rs) le h =
    IsNumbered-same (suc n + k) (n + suc k) (drop k rs) (omega arith)
      (IsNumbered-drop (suc n) k rs (omega (arith, le)) h.1)

IsNumbered-empty : (n : ℕ) (rs : List RuntimeEventRecord) → length rs ≡ 0 → IsNumbered n rs
IsNumbered-empty n [] h = tt
IsNumbered-empty n (r ∷ rs) h = absurd (omega (arith, h))

-- A list that is full and numbered stays so with the next record.
abbrev IsFull : ℕ → ℕ → List RuntimeEventRecord → Type 0
IsFull n size rs = (length rs ≡ min n size) × IsNumbered (n - length rs) rs

retained-IsFull :
    (n size : ℕ) (rs : List RuntimeEventRecord) (r : RuntimeEventRecord)
    → IsFull n size rs
    → r.sequence ≡ suc n
    → IsFull (suc n) size (retained size rs r)
retained-IsFull n size rs r (full, numbered) e =
    let grown = rs ++ r ∷ [] in
    let longer : length grown ≡ suc (length rs) = omega (arith, length-append rs (r ∷ [])) in
    let next : IsNumbered (n - length rs) grown =
      IsNumbered-append (n - length rs) rs r numbered (omega (arith, e, full)) in
    let shorter = length-drop (length grown - size) grown in
    elim (Bool-cases (ltb 0 size)) [
      | inr none_kept ↦
          rw (none_kept) (
            ground (arith, none_kept, full),
            IsNumbered-empty _ rs (ground (arith, none_kept, full)),
          )
      | inl some_kept ↦ elim (Bool-cases (ltb size (length grown))) [
        | inr fits ↦
            rw (some_kept, fits)
              (
                ground (arith, full, fits, longer),
                IsNumbered-same _ _ grown (ground (arith, full, fits, longer)) next,
              )
        | inl over ↦
            rw (some_kept, over)
              (
                ground (arith, some_kept, full, over, longer, shorter),
                IsNumbered-same _ _ _ (ground (arith, some_kept, full, over, longer, shorter)) (
                    IsNumbered-drop (n - length rs) (length grown - size) grown (omega arith) next),
              )
      ]
    ]

pub remember-IsKept :
    (bus : RuntimeEventBus) (event : RuntimeEvent) (at work : ℕ)
    → IsKept bus
    → IsKept (remember bus event at work).0
unfolding remember
remember-IsKept bus event at work h =
    let (full, numbered) =
      retained-IsFull bus.sequence bus.event_buffer_size bus.events ((remember bus event at work).1)
        (h.full, h.numbered) (omega arith) in
    record { full = omega (arith, full); numbered = IsNumbered-same _ _ _ (omega arith) numbered }

pub last_events-IsNumbered :
    (n limit : ℕ) (rs : List RuntimeEventRecord)
    → length rs ≤ n
    → IsNumbered (n - length rs) rs
    → (length (last_events limit rs) ≡ min limit (length rs))
      × IsNumbered (n - min limit (length rs)) (last_events limit rs)
last_events-IsNumbered n limit rs le h =
    let shorter = length-drop (length rs - limit) rs in
    (
      omega (arith, shorter),
      IsNumbered-same _ _ _ (omega (arith, le))
          (IsNumbered-drop (n - length rs) (length rs - limit) rs (omega arith) h),
    )

-- A query for a number of events has the newest ones, as many as there are of those the bus has room
-- for, numbered one by one up to the last that was recorded.
pub events_within_lem :
    (bus : RuntimeEventBus) (limit : ℕ)
    → IsKept bus
    → (rs : List RuntimeEventRecord) × (events_within bus (some (integer (pos limit))) ≡ allowed rs)
      × (length rs ≡ min limit (min bus.sequence bus.event_buffer_size))
      × IsNumbered (bus.sequence - length rs) rs
unfolding events_within
events_within_lem bus limit h = elim (Bool-cases (limit == 0)) [
  | inl e ↦ rw (e) ([], refl, ground (arith, e), tt)
  | inr e ↦
      let (count, numbered) =
        last_events-IsNumbered bus.sequence limit bus.events (omega (arith, h.full)) h.numbered in
      rw (e) (
        last_events limit bus.events,
        refl,
        omega (arith, count, h.full),
        IsNumbered-same _ _ _ (omega (arith, count)) numbered,
      )
]
