-- ===== src/Runtime/Signals/Kept.antt =====
-- What the buffers of packages/core/src/runtime/signalBus.ts hold after a number of calls.
use frond.Shared.{
  ℕ, ◌-◌, ◌≤◌, ◌≡◌, refl, sym, ap, ◌∙◌, String, Bool, true, false, some, List, [], ◌∷◌, ◌++◌, ◌==◌,
  beq_refl, string_eq, nat_eq, has, keep, length, ltb, arith, All, Bool-cases, inl, inr, append-nil,
}
use frond.Shared.Maps.{get, keys, get-put}
use frond.Shared.Newest.{newest, newest-newest}
use frond.Shared.Sorted.{IsSorted}
use frond.Runtime.Policies.{
  NormalizedRuntimeSignalPolicy, keep_none, bounded, RuntimeSignalPolicyRegistry, signal_policy,
}
use frond.Runtime.Signals.{
  RuntimeSignalRecord, RuntimeSignalBus, Buffers, or_empty, trimmed, stored, store, by_sequence,
}

abbrev pub is_on : String → RuntimeSignalRecord → Bool
is_on channel entry = entry.signal.channel == channel

-- Of all that was published, what a policy has a channel keep.
abbrev pub held_by :
    NormalizedRuntimeSignalPolicy → String → List RuntimeSignalRecord → List RuntimeSignalRecord
held_by keep_none channel history = []
held_by (bounded size) channel history = newest size (keep (is_on channel) history)

abbrev pub held :
    RuntimeSignalPolicyRegistry → String → List RuntimeSignalRecord → List RuntimeSignalRecord
held policies channel history = held_by (signal_policy policies channel) channel history

-- Each buffer has the records of its channel, and no channel has two.
abbrev pub IsFiled : Buffers → Type 0
IsFiled [] = Unit
IsFiled ((channel, records) ∷ buffers) =
    All (λ r. is_on channel r ≡ true) records
    × (has channel (keys buffers) ≡ false)
    × IsFiled buffers

pub record Holds (history : List RuntimeSignalRecord) (bus : RuntimeSignalBus) : Type 0 where
  pub filed : IsFiled bus.records_by_channel
  pub kept :
      (channel : String)
      → or_empty (get channel bus.records_by_channel) ≡ held bus.policies channel history
  pub sorted : IsSorted by_sequence history
  pub past : All (λ r. r.sequence ≤ bus.sequence) history

trimmed-newest : (size : ℕ) (rs : List RuntimeSignalRecord) → trimmed size rs ≡ newest size rs
trimmed-newest size rs = elim (Bool-cases (ltb 0 (length rs - size))) [
  | inl e ↦ rw (e) refl
  | inr e ↦ let none_over : length rs - size ≡ 0 = ground (arith, e) in rw (none_over) refl
]

pub keep-append :
    (test : RuntimeSignalRecord → Bool) (xs ys : List RuntimeSignalRecord)
    → keep test (xs ++ ys) ≡ keep test xs ++ keep test ys
keep-append test [] ys = refl
keep-append test (x ∷ xs) ys = ground (arith, keep-append test xs ys)

-- A record on another channel, and one on this.
held_by-other :
    (p : NormalizedRuntimeSignalPolicy) (channel : String) (history : List RuntimeSignalRecord)
    (entry : RuntimeSignalRecord)
    → is_on channel entry ≡ false
    → held_by p channel (history ++ entry ∷ []) ≡ held_by p channel history
held_by-other keep_none channel history entry e = refl
held_by-other (bounded size) channel history entry e = ap (newest size) (
    keep-append (is_on channel) history (entry ∷ [])
    ∙ rw (e) (append-nil (keep (is_on channel) history)))

stored-other :
    (p : NormalizedRuntimeSignalPolicy) (channel other : String) (entry : RuntimeSignalRecord)
    (buffers : Buffers)
    → (other == channel) ≡ false
    → get channel (stored p other entry buffers) ≡ get channel buffers
unfolding stored
stored-other keep_none channel other entry buffers e = refl
stored-other (bounded size) channel other entry buffers e =
    get-put other channel _ buffers ∙ rw (e) refl

stored-same :
    (p : NormalizedRuntimeSignalPolicy) (channel : String) (history : List RuntimeSignalRecord)
    (entry : RuntimeSignalRecord) (buffers : Buffers)
    → is_on channel entry ≡ true
    → or_empty (get channel buffers) ≡ held_by p channel history
    → or_empty (get channel (stored p channel entry buffers))
      ≡ held_by p channel (history ++ entry ∷ [])
unfolding stored
stored-same keep_none channel history entry buffers e h = h
stored-same (bounded size) channel history entry buffers e h =
    let found =
      get-put channel channel (trimmed size (or_empty (get channel buffers) ++ entry ∷ []))
        buffers in
    let with_entry : keep (is_on channel) history ++ keep (is_on channel) (entry ∷ [])
        ≡ keep (is_on channel) history ++ entry ∷ [] =
      rw (e) refl in
    let put_back : get channel (stored (bounded size) channel entry buffers)
        ≡ some (trimmed size (or_empty (get channel buffers) ++ entry ∷ [])) =
      found ∙ rw (beq_refl channel) refl in
    ap or_empty put_back
    ∙ trimmed-newest size (or_empty (get channel buffers) ++ entry ∷ [])
    ∙ ap (λ rs. newest size (rs ++ entry ∷ [])) h
    ∙ newest-newest size (keep (is_on channel) history) (entry ∷ [])
    ∙ sym (ap (newest size) (keep-append (is_on channel) history (entry ∷ []) ∙ with_entry))

pub held-append :
    (policies : RuntimeSignalPolicyRegistry) (buffers : Buffers)
    (history : List RuntimeSignalRecord) (entry : RuntimeSignalRecord) (channel : String)
    → or_empty (get channel buffers) ≡ held policies channel history
    → or_empty (get channel (store policies entry buffers))
      ≡ held policies channel (history ++ entry ∷ [])
unfolding store
held-append policies buffers history entry channel h = elim (Bool-cases (is_on channel entry)) [
  | inl e ↦
      let c : entry.signal.channel ≡ channel =
        (string_eq.beq_iff entry.signal.channel channel).0 e in
      ap (λ k. or_empty (get channel (stored (signal_policy policies k) k entry buffers))) c
      ∙ stored-same (signal_policy policies channel) channel history entry buffers e h
  | inr e ↦
      ap or_empty (
        stored-other (signal_policy policies entry.signal.channel) channel entry.signal.channel
          entry buffers e)
      ∙ h
      ∙ sym (held_by-other (signal_policy policies channel) channel history entry e)
]
