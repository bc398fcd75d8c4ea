-- ===== src/Runtime/Events/Notify/Reaches.antt =====
-- What the calls of packages/core/src/runtime/eventBus.ts make of a bus, and what comes of several.
use frond.Shared.{
  ℕ, zero, suc, ◌+◌, ◌≤◌, ◌≡◌, refl, ap, ◌∙◌, Option, some, List, [], ◌∷◌, length, keep, Bool,
  if◌then◌else◌, arith,
}
use frond.Runtime.Events.{RuntimeEvent, RuntimeSink, RuntimeObserver, RuntimeEventBus, remember}
use frond.Runtime.Events.Notify.{for_each}
use frond.Runtime.Events.Notify.Kept.{IsKept, remember-IsKept}

-- What a bus has come to: the same host code, at most `k` records more, and what it keeps.
pub record Reaches (k : ℕ) (bus after : RuntimeEventBus) : Type 0 where
  pub observers : after.observers ≡ bus.observers
  pub sinks : after.sinks ≡ bus.sinks
  pub room : after.event_buffer_size ≡ bus.event_buffer_size
  pub more : bus.sequence ≤ after.sequence
  pub bounded : after.sequence ≤ bus.sequence + k
  pub kept : IsKept bus → IsKept after

-- A computation that ends, there.
abbrev pub Ends : ℕ → RuntimeEventBus → Option RuntimeEventBus → Type 0
Ends k bus outcome = (after : RuntimeEventBus) × (outcome ≡ some after) × Reaches k bus after

abbrev pub times : ℕ → ℕ → ℕ
times zero k = 0
times (suc n) k = k + times n k

-- The most records that a notification adds, at each of its levels, with `o` observers and `s` sinks
-- that may fail.
abbrev pub deep_observers : ℕ → ℕ
deep_observers o = times o 1

abbrev pub deep_sinks : ℕ → ℕ → ℕ
deep_sinks o s = times s (suc (deep_observers o))

abbrev pub all_observers : ℕ → ℕ → ℕ
all_observers o s = times o (suc (deep_sinks o s))

abbrev pub all_sinks : ℕ → ℕ → ℕ
all_sinks o s = times s (suc (all_observers o s))

pub Reaches-refl : (bus : RuntimeEventBus) → Reaches 0 bus bus
Reaches-refl bus = record {
  observers = refl;
  sinks = refl;
  room = refl;
  more = omega arith;
  bounded = omega arith;
  kept = λ h. h;
}

pub Reaches-trans :
    (j k : ℕ) (a b c : RuntimeEventBus) → Reaches j a b → Reaches k b c → Reaches (j + k) a c
Reaches-trans j k a b c p q = record {
  observers = q.observers ∙ p.observers;
  sinks = q.sinks ∙ p.sinks;
  room = q.room ∙ p.room;
  more = omega (arith, p.more, q.more);
  bounded = omega (arith, p.bounded, q.bounded);
  kept = λ h. q.kept (p.kept h);
}

pub Reaches-weaken : (j k : ℕ) (a b : RuntimeEventBus) → j ≤ k → Reaches j a b → Reaches k a b
Reaches-weaken j k a b le p = record {
  observers = p.observers;
  sinks = p.sinks;
  room = p.room;
  more = p.more;
  bounded = omega (arith, p.bounded, le);
  kept = p.kept;
}

pub remember-Reaches :
    (bus : RuntimeEventBus) (event : RuntimeEvent) (at work : ℕ)
    → Reaches 1 bus (remember bus event at work).0
unfolding remember
remember-Reaches bus event at work = record {
  observers = refl;
  sinks = refl;
  room = refl;
  more = omega arith;
  bounded = omega arith;
  kept = λ h. remember-IsKept bus event at work h;
}

-- How many satisfy a test.
abbrev pub count : {A : Type 0} → (A → Bool) → List A → ℕ
count test items = length (keep test items)

module _ (observer_fails : RuntimeObserver → Bool) (sink_fails : RuntimeSink → Bool) where
  -- A bus with so many observers and sinks that may fail.
  abbrev pub IsSized : ℕ → ℕ → RuntimeEventBus → Type 0
  IsSized o s bus = (count observer_fails bus.observers ≡ o) × (count sink_fails bus.sinks ≡ s)

  pub Reaches-IsSized :
      (o s k : ℕ) (a b : RuntimeEventBus) → Reaches k a b → IsSized o s a → IsSized o s b
  Reaches-IsSized o s k a b p h =
      (ap (count observer_fails) p.observers ∙ h.0, ap (count sink_fails) p.sinks ∙ h.1)

  -- Only the items that satisfy the test add records.
  pub for_each-Ends :
      {A : Type 0} (test : A → Bool) (o s k : ℕ)
      (handle : RuntimeEventBus → A → Option RuntimeEventBus) (bus : RuntimeEventBus)
      (items : List A)
      → ((b : RuntimeEventBus) (a : A)
          → IsSized o s b
          → Ends (if test a then k else 0) b (handle b a))
      → IsSized o s bus
      → Ends (times (count test items) k) bus (for_each handle bus items)
  unfolding for_each
  for_each-Ends test o s k handle bus [] each h = (bus, refl, Reaches-refl bus)
  for_each-Ends test o s k handle bus (a ∷ items) each h =
      let (mid, e, p) = each bus a h in
      let (after, f, q) =
        for_each-Ends test o s k handle mid items each (Reaches-IsSized o s _ bus mid p h) in
      (
        after,
        rw (e, for_each) f,
        Reaches-weaken _ _ bus after (ground arith)
            (Reaches-trans _ (times (count test items) k) bus mid after p q),
      )
