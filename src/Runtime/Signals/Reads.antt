-- ===== src/Runtime/Signals/Reads.antt =====
-- The queries of packages/core/src/runtime/signalBus.ts.
use frond.Shared.{
  ℕ, zero, suc, ◌≡◌, refl, ap, ◌∙◌, String, false, Option, none, some, List, [], ◌∷◌, ◌==◌,
  string_eq, nat_eq, has, keep, drop, arith, All, Bool-cases, inl, inr, append-nil,
}
use frond.Shared.Maps.{get, keys}
use frond.Shared.Sorted.{
  IsSorted, Total, Transitive, sort_by-IsSorted, sort_by-sorted, keep-sort_by, keep-IsSorted,
}
use frond.Shared.Sort.{sort_by}
use frond.Types.Value.{Value}
use frond.Runtime.Limits.{allowed}
use frond.Runtime.Policies.{
  NormalizedRuntimeSignalPolicy, keep_none, bounded, RuntimeSignalPolicyRegistry, signal_policy,
}
use frond.Runtime.Signals.{
  RuntimeSignalRecord, RuntimeSignalSubscriber, Buffers, or_empty, query_records, by_sequence,
  all_records, merge_by_sequence,
}
use frond.Runtime.Signals.Kept.{is_on, held, held_by, IsFiled, keep-append}
use frond.Runtime.Signals.Filed.{On}
use frond.Runtime.Signals.Calls.{SignalCall, published, after_calls, after_calls-Holds}

by_sequence-total : Total by_sequence
by_sequence-total x y h = ground (arith, h)

by_sequence-trans : Transitive by_sequence
by_sequence-trans x y z h k = ground (arith, h, k)

drop-IsSorted :
    (n : ℕ) (rs : List RuntimeSignalRecord)
    → IsSorted by_sequence rs
    → IsSorted by_sequence (drop n rs)
drop-IsSorted zero rs h = h
drop-IsSorted (suc n) [] h = tt
drop-IsSorted (suc n) (r ∷ rs) h = drop-IsSorted n rs h.1

held-IsSorted :
    (p : NormalizedRuntimeSignalPolicy) (channel : String) (history : List RuntimeSignalRecord)
    → IsSorted by_sequence history
    → IsSorted by_sequence (held_by p channel history)
held-IsSorted keep_none channel history h = tt
held-IsSorted (bounded size) channel history h =
    drop-IsSorted _ (keep (is_on channel) history)
      (keep-IsSorted by_sequence (is_on channel) history h)

keep-On :
    (channel : String) (rs : List RuntimeSignalRecord)
    → All (On channel) rs
    → keep (is_on channel) rs ≡ rs
keep-On channel [] h = refl
keep-On channel (r ∷ rs) h = rw (h.0) (ap (λ l. r ∷ l) (keep-On channel rs h.1))

keep-off :
    (channel other : String) (rs : List RuntimeSignalRecord)
    → (other == channel) ≡ false
    → All (On other) rs
    → keep (is_on channel) rs ≡ []
keep-off channel other [] e h = refl
keep-off channel other (r ∷ rs) e h =
    let same : r.signal.channel ≡ other = (string_eq.beq_iff r.signal.channel other).0 h.0 in
    let elsewhere : is_on channel r ≡ false = ap (λ k. k == channel) same ∙ e in
    rw (elsewhere) (keep-off channel other rs e h.1)

keep-none :
    (channel : String) (buffers : Buffers)
    → IsFiled buffers
    → has channel (keys buffers) ≡ false
    → keep (is_on channel) (all_records buffers) ≡ []
unfolding has
keep-none channel [] h e = refl
keep-none channel ((k, rs) ∷ buffers) h e =
    let apart : (k == channel) ≡ false = ground (arith, e) in
    keep-append (is_on channel) rs (all_records buffers)
    ∙ rw (keep-off channel k rs apart h.0) (keep-none channel buffers h.2 (ground (arith, e)))

keep-all_records :
    (channel : String) (buffers : Buffers)
    → IsFiled buffers
    → keep (is_on channel) (all_records buffers) ≡ or_empty (get channel buffers)
unfolding get
keep-all_records channel [] h = refl
keep-all_records channel ((k, rs) ∷ buffers) h = elim (Bool-cases (k == channel)) [
  | inl e ↦
      let c : k ≡ channel = (string_eq.beq_iff k channel).0 e in
      let here : All (On channel) rs = rw (← c) h.0 in
      let later = keep-none channel buffers h.2 (rw (← c) h.1) in
      rw (e, get)
        (keep-append (is_on channel) rs (all_records buffers)
          ∙ rw (later) (append-nil (keep (is_on channel) rs) ∙ keep-On channel rs here))
  | inr e ↦
      rw (e, get)
        (keep-append (is_on channel) rs (all_records buffers)
          ∙ rw (keep-off channel k rs e h.0) (keep-all_records channel buffers h.2))
]

module _ (failure : RuntimeSignalSubscriber → RuntimeSignalRecord → Option Value) where
  -- After any calls of a new bus, a channel keeps the newest of its signals, as many as its policy has
  -- room for, and none if its policy retains none.
  pub channel_records :
      (policies : RuntimeSignalPolicyRegistry) (subscribers : List RuntimeSignalSubscriber)
      (calls : List SignalCall) (channel : String)
      → query_records
          (after_calls failure policies subscribers calls).records_by_channel
          (record { channel = some channel; limit = none })
        ≡ allowed (held policies channel (published 0 calls))
  unfolding query_records
  channel_records policies subscribers calls channel =
      let (holds, same) = after_calls-Holds failure policies subscribers calls in
      ap allowed (holds.kept channel ∙ ap (λ p. held p channel (published 0 calls)) same)

  -- A query for all channels has exactly the records that the channels keep, in the order in which
  -- they were published.
  pub merged_records :
      (policies : RuntimeSignalPolicyRegistry) (subscribers : List RuntimeSignalSubscriber)
      (calls : List SignalCall) (channel : String)
      → (records : List RuntimeSignalRecord) × (query_records
            (after_calls failure policies subscribers calls).records_by_channel
            (record { channel = none; limit = none })
          ≡ allowed records)
        × IsSorted by_sequence records
        × (keep (is_on channel) records ≡ held policies channel (published 0 calls))
  unfolding query_records merge_by_sequence
  merged_records policies subscribers calls channel =
      let (holds, same) = after_calls-Holds failure policies subscribers calls in
      let buffers = (after_calls failure policies subscribers calls).records_by_channel in
      let kept : or_empty (get channel buffers) ≡ held policies channel (published 0 calls) =
        holds.kept channel ∙ ap (λ p. held p channel (published 0 calls)) same in
      (
        merge_by_sequence buffers,
        refl,
        sort_by-IsSorted by_sequence (all_records buffers) by_sequence-total by_sequence-trans,
        keep-sort_by by_sequence (is_on channel) (all_records buffers) by_sequence-total
              by_sequence-trans
            ∙ ap (sort_by by_sequence) (keep-all_records channel buffers holds.filed ∙ kept)
            ∙ sort_by-sorted by_sequence (held policies channel (published 0 calls)) (
                held-IsSorted (signal_policy policies channel) channel (published 0 calls)
                  holds.sorted),
      )
