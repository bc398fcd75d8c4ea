-- ===== src/Runtime/Signals/Calls.antt =====
-- A signal bus of packages/core/src/runtime/signalBus.ts over a number of calls.
use frond.Shared.{
  ℕ, ◌+◌, ◌-◌, ◌≤◌, ◌≡◌, refl, sym, ap, ◌∙◌, String, Option, List, [], ◌∷◌, ◌++◌, string_eq, nat_eq,
  arith, All, All-map, All-append, if_both, append-nil, append_assoc,
}
use frond.Shared.Maps.{get}
use frond.Shared.Newest.{drop-nil}
use frond.Shared.Sorted.{IsSorted, IsBefore}
use frond.Types.Value.{Value}
use frond.Runtime.Policies.{
  NormalizedRuntimeSignalPolicy, keep_none, bounded, RuntimeSignalPolicyRegistry, signal_policy,
}
use frond.Runtime.Signals.{
  RuntimeSignal, RuntimeSignalRecord, RuntimeSignalSubscriber, RuntimeSignalBus, store, publish,
  subscribe, subscribe_all, make_runtime_signal_bus, unsubscribe, by_sequence,
}
use frond.Runtime.Signals.Kept.{held_by, Holds, held-append}
use frond.Runtime.Signals.Filed.{stored-IsFiled}

-- A call of the bus, at a time.
pub data SignalCall : Type 0 where
  call_publish : RuntimeSignal → ℕ → SignalCall
  call_subscribe call_unsubscribe : RuntimeSignalSubscriber → SignalCall

module _ (failure : RuntimeSignalSubscriber → RuntimeSignalRecord → Option Value) where
  abbrev pub call_bus : RuntimeSignalBus → SignalCall → RuntimeSignalBus
  call_bus bus (call_publish signal at) = (publish failure bus signal at).0
  call_bus bus (call_subscribe subscriber) = subscribe bus subscriber
  call_bus bus (call_unsubscribe subscriber) = unsubscribe bus subscriber

  pub run : RuntimeSignalBus → List SignalCall → RuntimeSignalBus
  run bus [] = bus
  run bus (call ∷ calls) = run (call_bus bus call) calls

-- The records of the published signals, with their numbers.
abbrev pub published : ℕ → List SignalCall → List RuntimeSignalRecord
published n [] = []
published n (call_publish signal at ∷ calls) =
    record { sequence = n + 1; recorded_at = at; signal = signal } ∷ published (n + 1) calls
published n (call_subscribe subscriber ∷ calls) = published n calls
published n (call_unsubscribe subscriber ∷ calls) = published n calls

snoc-IsSorted :
    (n : ℕ) (rs : List RuntimeSignalRecord) (r : RuntimeSignalRecord)
    → All (λ s. s.sequence ≤ n) rs
    → n ≤ r.sequence
    → IsSorted by_sequence rs
    → IsSorted by_sequence (rs ++ r ∷ [])
snoc-IsSorted n [] r past le h = (tt, tt)
snoc-IsSorted n (s ∷ rs) r past le h = (
  All-append (IsBefore by_sequence s) rs (r ∷ []) h.0 (ground (arith, past.0, le), tt),
  snoc-IsSorted n rs r past.1 le h.1,
)

publish-Holds :
    (failure : RuntimeSignalSubscriber → RuntimeSignalRecord → Option Value)
    (bus : RuntimeSignalBus) (history : List RuntimeSignalRecord) (signal : RuntimeSignal) (at : ℕ)
    → Holds history bus
    → Holds
        (history ++ record { sequence = bus.sequence + 1; recorded_at = at; signal = signal } ∷ [])
        (publish failure bus signal at).0
unfolding publish store
publish-Holds failure bus history signal at h =
    let entry : RuntimeSignalRecord = record {
      sequence = bus.sequence + 1;
      recorded_at = at;
      signal = signal;
    } in
    record {
      filed =
          stored-IsFiled (signal_policy bus.policies signal.channel) entry bus.records_by_channel
            h.filed;
      kept = λ channel.
          held-append bus.policies bus.records_by_channel history entry channel (h.kept channel);
      sorted = snoc-IsSorted bus.sequence history entry h.past (omega arith) h.sorted;
      past =
          All-append (λ r. r.sequence ≤ bus.sequence + 1) history (entry ∷ [])
            (All-map (λ r. r.sequence ≤ bus.sequence) (λ r. r.sequence ≤ bus.sequence + 1) history
              (λ r le. omega (arith, le)) h.past)
            (omega arith, tt);
    }

subscribe-Holds :
    (bus : RuntimeSignalBus) (history : List RuntimeSignalRecord)
    (subscriber : RuntimeSignalSubscriber)
    → Holds history bus
    → Holds history (subscribe bus subscriber)
unfolding subscribe
subscribe-Holds bus history subscriber h =
    if_both (Holds history) _ bus _ (λ e. h)
      (λ e. record { filed = h.filed; kept = h.kept; sorted = h.sorted; past = h.past })

Holds-same :
    (h k : List RuntimeSignalRecord) (bus : RuntimeSignalBus) → h ≡ k → Holds h bus → Holds k bus
Holds-same h k bus e p = rw (← e) p

subscribe_all-Holds :
    (bus : RuntimeSignalBus) (history : List RuntimeSignalRecord)
    (subscribers : List RuntimeSignalSubscriber)
    → Holds history bus
    → Holds history (subscribe_all bus subscribers)
unfolding subscribe_all
subscribe_all-Holds bus history [] h = h
subscribe_all-Holds bus history (subscriber ∷ subscribers) h =
    subscribe_all-Holds (subscribe bus subscriber) history subscribers
      (subscribe-Holds bus history subscriber h)

-- What a call leaves as it is.
subscribe-same :
    (bus : RuntimeSignalBus) (subscriber : RuntimeSignalSubscriber)
    → ((subscribe bus subscriber).sequence ≡ bus.sequence)
      × ((subscribe bus subscriber).policies ≡ bus.policies)
unfolding subscribe
subscribe-same bus subscriber =
    if_both (λ b. (b.sequence ≡ bus.sequence) × (b.policies ≡ bus.policies)) _ bus _
      (λ e. (refl, refl)) (λ e. (refl, refl))

subscribe_all-same :
    (bus : RuntimeSignalBus) (subscribers : List RuntimeSignalSubscriber)
    → ((subscribe_all bus subscribers).sequence ≡ bus.sequence)
      × ((subscribe_all bus subscribers).policies ≡ bus.policies)
unfolding subscribe_all
subscribe_all-same bus [] = (refl, refl)
subscribe_all-same bus (subscriber ∷ subscribers) =
    let first = subscribe-same bus subscriber in
    let rest = subscribe_all-same (subscribe bus subscriber) subscribers in
    (rest.0 ∙ first.0, rest.1 ∙ first.1)

module _ (failure : RuntimeSignalSubscriber → RuntimeSignalRecord → Option Value) where
  run-Holds :
      (bus : RuntimeSignalBus) (history : List RuntimeSignalRecord) (calls : List SignalCall)
      → Holds history bus
      → Holds (history ++ published bus.sequence calls) (run failure bus calls)
        × ((run failure bus calls).policies ≡ bus.policies)
  unfolding run publish unsubscribe
  run-Holds bus history [] h = (rw (append-nil history) h, refl)
  run-Holds bus history (call_publish signal at ∷ calls) h =
      let entry : RuntimeSignalRecord = record {
        sequence = bus.sequence + 1;
        recorded_at = at;
        signal = signal;
      } in
      let (rest, same) =
        run-Holds (publish failure bus signal at).0 (history ++ entry ∷ []) calls
          (publish-Holds failure bus history signal at h) in
      (rw (← append_assoc history (entry ∷ []) (published (bus.sequence + 1) calls)) rest, same)
  run-Holds bus history (call_subscribe subscriber ∷ calls) h =
      let (rest, same) =
        run-Holds (subscribe bus subscriber) history calls
          (subscribe-Holds bus history subscriber h) in
      let (number, policies) = subscribe-same bus subscriber in
      (Holds-same _ _ _ (ap (λ n. history ++ published n calls) number) rest, same ∙ policies)
  run-Holds bus history (call_unsubscribe subscriber ∷ calls) h =
      run-Holds (unsubscribe bus subscriber) history calls
        (record { filed = h.filed; kept = h.kept; sorted = h.sorted; past = h.past })

  empty-held : (p : NormalizedRuntimeSignalPolicy) (channel : String) → held_by p channel [] ≡ []
  empty-held keep_none channel = refl
  empty-held (bounded size) channel = drop-nil (0 - size)

  new_bus-Holds :
      (policies : RuntimeSignalPolicyRegistry) (subscribers : List RuntimeSignalSubscriber)
      → Holds [] (make_runtime_signal_bus policies subscribers)
  unfolding get
  new_bus-Holds policies subscribers = subscribe_all-Holds _ [] subscribers (record {
    filed = tt;
    kept = λ channel. sym (empty-held (signal_policy policies channel) channel);
    sorted = tt;
    past = tt;
  })

  -- A new bus after any calls.
  abbrev pub after_calls :
      RuntimeSignalPolicyRegistry
      → List RuntimeSignalSubscriber
      → List SignalCall
      → RuntimeSignalBus
  after_calls policies subscribers calls =
      run failure (make_runtime_signal_bus policies subscribers) calls

  pub after_calls-Holds :
      (policies : RuntimeSignalPolicyRegistry) (subscribers : List RuntimeSignalSubscriber)
      (calls : List SignalCall)
      → Holds (published 0 calls) (after_calls policies subscribers calls)
        × ((after_calls policies subscribers calls).policies ≡ policies)
  after_calls-Holds policies subscribers calls =
      let start = make_runtime_signal_bus policies subscribers in
      let (number, same) = subscribe_all-same _ subscribers in
      let (holds, policies_same) = run-Holds start [] calls (new_bus-Holds policies subscribers) in
      (Holds-same _ _ _ (ap (λ n. published n calls) number) holds, policies_same ∙ same)
