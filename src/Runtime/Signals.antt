-- ===== src/Runtime/Signals.antt =====
-- makeRuntimeSignalBus of packages/core/src/runtime/signalBus.ts. What a subscriber does is the
-- author's code: whether its handler fails on a record is a parameter. The calls of the event bus are
-- returned in their order.
pub mod Kept
pub mod Filed
pub mod Calls
pub mod Reads
use frond.Shared.{
  ℕ, ◌+◌, ◌-◌, String, Bool, true, false, not, Option, none, some, List, [], ◌∷◌, ◌++◌,
  if◌then◌else◌, ◌==◌, string_eq, nat_eq, has, keep, length, drop, ltb, leb, map,
}
use frond.Shared.Maps.{get, put}
use frond.Shared.Newest.{newest}
use frond.Shared.Sort.{sort_by}
use frond.Types.Value.{Value, undefined}
use frond.Runtime.Limits.{
  LimitNumber, Limited, allowed, out_of_range, optional_non_negative_integer,
}
use frond.Runtime.Policies.{
  NormalizedRuntimeSignalPolicy, keep_none, bounded, RuntimeSignalPolicyRegistry, signal_policy,
}

pub record RuntimeSignal : Type 0 where
  pub channel : String
  pub name : String
  pub payload : Value

pub record RuntimeSignalRecord : Type 0 where
  pub sequence : ℕ
  pub recorded_at : ℕ
  pub signal : RuntimeSignal

pub record RuntimeSignalSubscriber : Type 0 where
  pub reference : ℕ
  pub name : String
  pub channels : Option (List String)

-- `subscribers` is the set and its snapshot, which are always the same.
pub record RuntimeSignalBus : Type 0 where
  pub policies : RuntimeSignalPolicyRegistry
  pub subscribers : List RuntimeSignalSubscriber
  pub records_by_channel : List (String × List RuntimeSignalRecord)
  pub sequence : ℕ

-- What the bus emits on the event bus.
pub data SignalEvent : Type 0 where
  signal_published : RuntimeSignalRecord → SignalEvent
  signal_subscriber_failure : String → RuntimeSignalRecord → Value → SignalEvent

pub record RuntimeSignalQuery : Type 0 where
  pub channel : Option String
  pub limit : Option LimitNumber

abbrev pub Buffers : Type 0
Buffers = List (String × List RuntimeSignalRecord)

abbrev pub or_empty : Option (List RuntimeSignalRecord) → List RuntimeSignalRecord
or_empty none = []
or_empty (some records) = records

-- `push` and the trim by the excess.
abbrev pub trimmed : ℕ → List RuntimeSignalRecord → List RuntimeSignalRecord
trimmed size records =
    let excess = length records - size in if ltb 0 excess then drop excess records else records

-- The buffer of a channel under a policy.
unfoldable pub stored :
    NormalizedRuntimeSignalPolicy → String → RuntimeSignalRecord → Buffers → Buffers
unfolding get put
stored keep_none channel entry buffers = buffers
stored (bounded size) channel entry buffers =
    put channel (trimmed size (or_empty (get channel buffers) ++ entry ∷ [])) buffers

unfoldable pub store : RuntimeSignalPolicyRegistry → RuntimeSignalRecord → Buffers → Buffers
unfolding stored
store policies entry buffers =
    stored (signal_policy policies entry.signal.channel) entry.signal.channel entry buffers

unfoldable pub signal_event_record :
    RuntimeSignalRecord → NormalizedRuntimeSignalPolicy → RuntimeSignalRecord
signal_event_record entry (bounded size) = entry
signal_event_record entry keep_none = record entry {
  signal = record entry.signal { payload = undefined };
}

unfoldable pub accepts_signal : RuntimeSignalSubscriber → RuntimeSignal → Bool
unfolding has
accepts_signal subscriber signal = elim subscriber.channels [
  | none ↦ true
  | some channels ↦ has signal.channel channels
]

module _ (failure : RuntimeSignalSubscriber → RuntimeSignalRecord → Option Value) where
  abbrev pub deliver_to_subscriber :
      RuntimeSignalSubscriber → RuntimeSignalRecord → List SignalEvent
  deliver_to_subscriber subscriber entry = elim (failure subscriber entry) [
    | none ↦ []
    | some cause ↦ signal_subscriber_failure subscriber.name entry cause ∷ []
  ]

  abbrev pub deliver_each : List RuntimeSignalSubscriber → RuntimeSignalRecord → List SignalEvent
  deliver_each [] entry = []
  deliver_each (subscriber ∷ subscribers) entry =
      deliver_to_subscriber subscriber entry ++ deliver_each subscribers entry

  abbrev pub deliver : RuntimeSignalBus → RuntimeSignalRecord → List SignalEvent
  deliver bus entry =
      deliver_each (keep (λ subscriber. accepts_signal subscriber entry.signal) bus.subscribers)
        entry

  unfoldable pub publish :
      RuntimeSignalBus → RuntimeSignal → ℕ → RuntimeSignalBus × List SignalEvent
  unfolding store signal_event_record accepts_signal
  publish bus signal recorded_at =
      let entry : RuntimeSignalRecord = record {
        sequence = bus.sequence + 1;
        recorded_at = recorded_at;
        signal = signal;
      } in
      let policy = signal_policy bus.policies signal.channel in
      (
        record bus {
          sequence = bus.sequence + 1;
          records_by_channel = store bus.policies entry bus.records_by_channel;
        },
        signal_published (signal_event_record entry policy) ∷ deliver bus entry,
      )

abbrev pub is_subscriber : RuntimeSignalSubscriber → RuntimeSignalSubscriber → Bool
is_subscriber subscriber other = other.reference == subscriber.reference

abbrev references : List RuntimeSignalSubscriber → List ℕ
references [] = []
references (s ∷ ss) = s.reference ∷ references ss

unfoldable pub subscribe : RuntimeSignalBus → RuntimeSignalSubscriber → RuntimeSignalBus
unfolding has
subscribe bus subscriber =
    if has subscriber.reference (references bus.subscribers)
    then bus
    else record bus { subscribers = bus.subscribers ++ subscriber ∷ [] }

-- `new Set(subscribers)`: the first of each.
unfoldable pub subscribe_all : RuntimeSignalBus → List RuntimeSignalSubscriber → RuntimeSignalBus
unfolding subscribe
subscribe_all bus [] = bus
subscribe_all bus (subscriber ∷ subscribers) = subscribe_all (subscribe bus subscriber) subscribers

abbrev pub make_runtime_signal_bus :
    RuntimeSignalPolicyRegistry → List RuntimeSignalSubscriber → RuntimeSignalBus
make_runtime_signal_bus policies subscribers =
    subscribe_all
      (record { policies = policies; subscribers = []; records_by_channel = []; sequence = 0 })
      subscribers

unfoldable pub unsubscribe : RuntimeSignalBus → RuntimeSignalSubscriber → RuntimeSignalBus
unsubscribe bus subscriber = record bus {
  subscribers = keep (λ other. not (is_subscriber subscriber other)) bus.subscribers;
}

abbrev pub by_sequence : RuntimeSignalRecord → RuntimeSignalRecord → Bool
by_sequence left right = leb left.sequence right.sequence

abbrev pub all_records : Buffers → List RuntimeSignalRecord
all_records [] = []
all_records ((channel, records) ∷ buffers) = records ++ all_records buffers

unfoldable pub merge_by_sequence : Buffers → List RuntimeSignalRecord
unfolding sort_by
merge_by_sequence buffers = sort_by by_sequence (all_records buffers)

abbrev pub filtered : Buffers → Option String → List RuntimeSignalRecord
filtered buffers none = merge_by_sequence buffers
filtered buffers (some channel) = or_empty (get channel buffers)

-- `slice(-limit)` for a limit that is not 0.
unfoldable pub query_records : Buffers → RuntimeSignalQuery → Limited (List RuntimeSignalRecord)
unfolding merge_by_sequence get
query_records buffers query =
    elim (optional_non_negative_integer "Runtime signal query limit" query.limit) [
      | out_of_range label ↦ out_of_range label
      | allowed none ↦ allowed (filtered buffers query.channel)
      | allowed (some n) ↦
          if n == 0 then allowed [] else allowed (newest n (filtered buffers query.channel))
    ]
