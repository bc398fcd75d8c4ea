-- ===== src/Scenarios/Buses.antt =====
-- An event bus with an observer and a sink that both fail, and a signal bus with two channels.
use frond.Shared.{
  suc, ◌+◌, ◌-◌, ◌≡◌, refl, arith, Bool, ◌==◌, if◌then◌else◌, String, Option, none, some, List, [],
  ◌∷◌, length, keep, nat_eq,
}
use Prim.Native.Nat.{min}
use frond.Shared.Int.{pos}
use frond.Shared.Sorted.{IsSorted}
use frond.Types.Value.{Value, text, null}
use frond.Runtime.Limits.{integer, allowed}
use frond.Runtime.Events.{
  observed, RuntimeEventRecord, RuntimeSink, RuntimeObserver, RuntimeEventBus,
  make_runtime_event_bus, events_within,
}
use frond.Runtime.Events.Notify.{Host, emit}
use frond.Runtime.Events.Notify.Kept.{IsKept, IsNumbered, events_within_lem}
use frond.Runtime.Events.Notify.Reaches.{Ends, all_observers, all_sinks}
use frond.Runtime.Events.Notify.Runs.{
  BusCall, call_emit, call_observe, run, emit_fuel, IsComplete, IsReordered, emit-Ends, run-IsKept,
}
use frond.Runtime.Policies.{RuntimeSignalPolicyRegistry, bounded, keep_none}
use frond.Runtime.Signals.{
  RuntimeSignal, RuntimeSignalRecord, RuntimeSignalSubscriber, by_sequence, query_records,
}
use frond.Runtime.Signals.Kept.{is_on, held}
use frond.Runtime.Signals.Calls.{SignalCall, call_publish, call_subscribe, published, after_calls}
use frond.Runtime.Signals.Reads.{channel_records, merged_records}

abbrev failing : Host
failing = record {
  observer_raises = λ observer told. some (text "observer");
  sink_failure = λ sink told. some (text "sink");
  completed = λ told sinks. sinks;
  clock = λ n. 1000 + n;
}

failing-IsComplete : IsComplete failing
failing-IsComplete r sinks = refl

abbrev sink : RuntimeSink
sink = record { reference = 1; name = "log" }

abbrev bus : RuntimeEventBus
bus = record {
  event_buffer_size = 4;
  sinks = sink ∷ [];
  observers = 7 ∷ [];
  events = [];
  sequence = 0;
}

bus-IsKept : IsKept bus
bus-IsKept = record { full = refl; numbered = tt }

-- A host where the observer 7 and the sink of the reference 1 fail, and no others.
abbrev seventh : RuntimeObserver → Bool
seventh observer = observer == 7

abbrev first : RuntimeSink → Bool
first s = s.reference == 1

abbrev partly_failing : Host
partly_failing = record failing {
  observer_raises = λ observer told. if seventh observer then some (text "observer") else none;
  sink_failure = λ s told. if first s then some (text "sink") else none;
}

partly_failing-IsReordered : IsReordered partly_failing
partly_failing-IsReordered test r sinks = refl

abbrev shared_bus : RuntimeEventBus
shared_bus = record bus {
  sinks = sink ∷ record { reference = 2; name = "file" } ∷ [];
  observers = 7 ∷ 8 ∷ [];
}

emit-Ends_example :
    Ends
      (suc (all_observers 1 1 + all_sinks 1 1))
      shared_bus
      (emit partly_failing emit_fuel shared_bus (observed "NodeReady" 1000) 5)
emit-Ends_example =
    emit-Ends partly_failing shared_bus (observed "NodeReady" 1000) 5 seventh first
      partly_failing-IsReordered (λ observer told e. ground (arith, e))
      (λ s told e. ground (arith, e))

abbrev calls : List BusCall
calls =
    call_observe 7
    ∷ call_emit (observed "NodeReady" 1000) 5
    ∷ call_emit (observed "NodeEvicted" 1001) 5
    ∷ []

run-IsKept_example :
    (after : RuntimeEventBus) × (run failing calls (make_runtime_event_bus 4 (sink ∷ []))
      ≡ some after)
    × IsKept after
run-IsKept_example = run-IsKept failing calls 4 (sink ∷ []) failing-IsComplete

abbrev full_bus : RuntimeEventBus
full_bus = record bus {
  event_buffer_size = 2;
  events =
      record { sequence = 2; recorded_at = 1002; work = 5; event = observed "NodeReady" 1002 }
      ∷ record { sequence = 3; recorded_at = 1003; work = 5; event = observed "NodeEvicted" 1003 }
      ∷ [];
  sequence = 3;
}

full_bus-IsKept : IsKept full_bus
full_bus-IsKept = record { full = refl; numbered = (refl, (refl, tt)) }

events_within_lem_example :
    (rs : List RuntimeEventRecord) × (events_within full_bus (some (integer (pos 1))) ≡ allowed rs)
    × (length rs ≡ min 1 (min 3 2))
    × IsNumbered (3 - length rs) rs
events_within_lem_example = events_within_lem full_bus 1 full_bus-IsKept

abbrev policies : RuntimeSignalPolicyRegistry
policies = record {
  default_policy = bounded 2;
  by_channel = ("secrets", keep_none) ∷ ("log", bounded 1) ∷ [];
}

abbrev subscriber : RuntimeSignalSubscriber
subscriber = record { reference = 1; name = "audit"; channels = some ("log" ∷ []) }

abbrev signal : String → RuntimeSignal
signal channel = record { channel = channel; name = "written"; payload = text "x" }

abbrev signal_calls : List SignalCall
signal_calls =
    call_publish (signal "log") 10
    ∷ call_subscribe subscriber
    ∷ call_publish (signal "secrets") 11
    ∷ call_publish (signal "todo") 12
    ∷ call_publish (signal "log") 13
    ∷ []

abbrev refuse : RuntimeSignalSubscriber → RuntimeSignalRecord → Option Value
refuse _ _ = some null

channel_records_example :
    query_records
      (after_calls refuse policies [] signal_calls).records_by_channel
      (record { channel = some "log"; limit = none })
    ≡ allowed (held policies "log" (published 0 signal_calls))
channel_records_example = channel_records refuse policies [] signal_calls "log"

merged_records_example :
    (records : List RuntimeSignalRecord) × (query_records
        (after_calls refuse policies [] signal_calls).records_by_channel
        (record { channel = none; limit = none })
      ≡ allowed records)
    × IsSorted by_sequence records
    × (keep (is_on "todo") records ≡ held policies "todo" (published 0 signal_calls))
merged_records_example = merged_records refuse policies [] signal_calls "todo"
