-- ===== src/Runtime/Events.antt =====
-- makeRuntimeEventBus of packages/core/src/runtime/eventBus.ts: what it remembers, its observers,
-- and its queries. An observer is its reference; the clock gives the time of each record. The
-- classification, the node ids and the failures of a record are functions of its event, and left out.
pub mod Notify
use frond.Shared.{
  ℕ, suc, ◌+◌, ◌-◌, String, Bool, Option, none, some, List, [], ◌∷◌, ◌++◌, if◌then◌else◌, nat_eq,
  ◌==◌, has, keep, length, drop, ltb, not, map,
}
use frond.Types.Value.{Value}
use frond.Runtime.Limits.{
  LimitNumber, Limited, allowed, out_of_range, optional_non_negative_integer,
}

-- The two events of the bus itself, and any other.
pub data RuntimeEvent : Type 0 where
  runtime_observer_failure_observed : String → Value → ℕ → RuntimeEvent
  runtime_sink_failure_observed : String → String → Value → ℕ → RuntimeEvent
  observed : String → ℕ → RuntimeEvent

abbrev pub event_tag : RuntimeEvent → String
event_tag (runtime_observer_failure_observed tag cause at) = "RuntimeObserverFailureObserved"
event_tag (runtime_sink_failure_observed sink tag cause at) = "RuntimeSinkFailureObserved"
event_tag (observed tag at) = tag

pub record RuntimeEventRecord : Type 0 where
  pub sequence : ℕ
  pub recorded_at : ℕ
  pub work : ℕ
  pub event : RuntimeEvent

pub record RuntimeSink : Type 0 where
  pub reference : ℕ
  pub name : String

abbrev pub RuntimeObserver : Type 0
RuntimeObserver = ℕ

-- `observers` is the set and its snapshot, which are always the same.
pub record RuntimeEventBus : Type 0 where
  pub event_buffer_size : ℕ
  pub sinks : List RuntimeSink
  pub observers : List RuntimeObserver
  pub events : List RuntimeEventRecord
  pub sequence : ℕ

abbrev pub make_runtime_event_bus : ℕ → List RuntimeSink → RuntimeEventBus
make_runtime_event_bus size sinks = record {
  event_buffer_size = size;
  sinks = sinks;
  observers = [];
  events = [];
  sequence = 0;
}

-- `events.push(record)` and the trim.
abbrev pub retained : ℕ → List RuntimeEventRecord → RuntimeEventRecord → List RuntimeEventRecord
retained size events entry =
    let grown = events ++ entry ∷ [] in
    if ltb 0 size
    then (if ltb size (length grown) then drop (length grown - size) grown else grown)
    else events

unfoldable pub remember :
    RuntimeEventBus → RuntimeEvent → ℕ → ℕ → RuntimeEventBus × RuntimeEventRecord
remember bus event recorded_at work =
    let entry : RuntimeEventRecord = record {
      sequence = bus.sequence + 1;
      recorded_at = recorded_at;
      work = work;
      event = event;
    } in
    (
      record bus {
        sequence = bus.sequence + 1;
        events = retained bus.event_buffer_size bus.events entry;
      },
      entry,
    )

unfoldable pub observe : RuntimeEventBus → RuntimeObserver → RuntimeEventBus
unfolding has
observe bus observer =
    if has observer bus.observers
    then bus
    else record bus { observers = bus.observers ++ observer ∷ [] }

unfoldable pub unsubscribe : RuntimeEventBus → RuntimeObserver → RuntimeEventBus
unsubscribe bus observer = record bus {
  observers = keep (λ other. not (other == observer)) bus.observers;
}

-- `events.slice(-limit)` for a limit that is not 0.
abbrev pub last_events : ℕ → List RuntimeEventRecord → List RuntimeEventRecord
last_events limit events = drop (length events - limit) events

unfoldable pub events_within :
    RuntimeEventBus → Option LimitNumber → Limited (List RuntimeEventRecord)
events_within bus limit = elim (optional_non_negative_integer "Runtime event query limit" limit) [
  | out_of_range label ↦ out_of_range label
  | allowed none ↦ allowed bus.events
  | allowed (some n) ↦ if n == 0 then allowed [] else allowed (last_events n bus.events)
]

unfoldable pub sink_names : RuntimeEventBus → List String
sink_names bus = map (λ sink. sink.name) bus.sinks
