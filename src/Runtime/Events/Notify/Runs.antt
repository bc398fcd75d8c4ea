-- ===== src/Runtime/Events/Notify/Runs.antt =====
-- A bus of packages/core/src/runtime/eventBus.ts over a number of calls.
use frond.Shared.{
  ℕ, suc, ◌+◌, ◌≡◌, refl, sym, ap, ◌∙◌, Bool, true, false, keep, Option, none, some, List, [], ◌∷◌,
  length, has, arith, if_both, nat_eq,
}
use frond.Types.Value.{is_undefined}
use frond.Runtime.Events.{
  RuntimeEvent, RuntimeEventRecord, RuntimeSink, RuntimeEventBus, RuntimeObserver, observe,
  unsubscribe, make_runtime_event_bus,
}
use frond.Runtime.Events.Notify.{Host, observer_failure, emit}
use frond.Runtime.Events.Notify.Kept.{IsKept}
use frond.Runtime.Events.Notify.Reaches.{Ends, count, all_observers, all_sinks}
use frond.Runtime.Events.Notify.Ends.{emit_nested-Ends}

pub data BusCall : Type 0 where
  call_emit : RuntimeEvent → ℕ → BusCall
  call_observe : RuntimeObserver → BusCall
  call_unsubscribe : RuntimeObserver → BusCall

-- The deepest nesting of the calls of one emit.
abbrev pub emit_fuel : ℕ
emit_fuel = 4

abbrev pub call_bus : Host → RuntimeEventBus → BusCall → Option RuntimeEventBus
call_bus host bus (call_emit event work) = emit host emit_fuel bus event work
call_bus host bus (call_observe observer) = some (observe bus observer)
call_bus host bus (call_unsubscribe observer) = some (unsubscribe bus observer)

pub run : Host → List BusCall → RuntimeEventBus → Option RuntimeEventBus
run host [] bus = some bus
run host (call ∷ calls) bus = elim (call_bus host bus call) [
  | none ↦ none
  | some after ↦ run host calls after
]

-- Every sink is done with a record once.
abbrev pub IsComplete : Host → Type 0
IsComplete host =
    (r : RuntimeEventRecord) (sinks : List RuntimeSink)
    → length (host.completed r sinks) ≡ length sinks

-- The sinks are done with a record in some order: as many of each kind as there are.
abbrev pub IsReordered : Host → Type 0
IsReordered host =
    (test : RuntimeSink → Bool) (r : RuntimeEventRecord) (sinks : List RuntimeSink)
    → count test (host.completed r sinks) ≡ count test sinks

-- An emit ends within a nesting of four calls, whatever observers and sinks raise, if the sinks are
-- done with a record in some order, each once. It leaves the observers, the sinks and the room of the
-- bus alone, and a bus that keeps its newest records still does. Of the observers and sinks only those
-- that are marked may fail. Then it adds at most one record for the event, one for each marked observer,
-- one for each marked sink, and those of the failures of marked sinks and observers on these, to the
-- depth at which no one is told any more.
pub emit-Ends :
    (host : Host) (bus : RuntimeEventBus) (event : RuntimeEvent) (work : ℕ)
    (observer_fails : RuntimeObserver → Bool) (sink_fails : RuntimeSink → Bool)
    → IsReordered host
    → ((observer : RuntimeObserver) (told : RuntimeEventRecord)
        → observer_fails observer ≡ false
        → is_undefined (observer_failure host observer told) ≡ true)
    → ((sink : RuntimeSink) (told : RuntimeEventRecord)
        → sink_fails sink ≡ false
        → host.sink_failure sink told ≡ none)
    → Ends
        (suc (
          all_observers (count observer_fails bus.observers) (count sink_fails bus.sinks)
          + all_sinks (count observer_fails bus.observers) (count sink_fails bus.sinks)))
        bus
        (emit host emit_fuel bus event work)
emit-Ends host bus event work observer_fails sink_fails reordered sound_observer sound_sink =
    emit_nested-Ends host observer_fails sink_fails sound_observer sound_sink (reordered sink_fails)
      (count observer_fails bus.observers) (count sink_fails bus.sinks) 0 bus event work
      (refl, refl)

keep_all : {A : Type 0} (items : List A) → keep (λ a. true) items ≡ items
keep_all [] = refl
keep_all (a ∷ items) = ap (λ l. a ∷ l) (keep_all items)

observe-IsKept :
    (bus : RuntimeEventBus) (observer : RuntimeObserver)
    → IsKept bus
    → IsKept (observe bus observer)
unfolding observe
observe-IsKept bus observer h =
    if_both IsKept (has observer bus.observers) bus _ (λ e. h)
      (λ e. record { full = h.full; numbered = h.numbered })

call_bus-IsKept :
    (host : Host) (bus : RuntimeEventBus) (call : BusCall)
    → IsComplete host
    → IsKept bus
    → (after : RuntimeEventBus) × (call_bus host bus call ≡ some after) × IsKept after
unfolding unsubscribe
call_bus-IsKept host bus (call_emit event work) complete h =
    let (after, e, p) =
      emit_nested-Ends host (λ observer. true) (λ sink. true)
        (λ observer told f. absurd (ground (arith, f))) (λ sink told f. absurd (ground (arith, f)))
        (λ r sinks.
          ap length (keep_all (host.completed r sinks))
          ∙ complete r sinks
          ∙ sym (ap length (keep_all sinks)))
        _ _ 0 bus event work (refl, refl) in
    (after, e, p.kept h)
call_bus-IsKept host bus (call_observe observer) complete h =
    (observe bus observer, refl, observe-IsKept bus observer h)
call_bus-IsKept host bus (call_unsubscribe observer) complete h =
    (unsubscribe bus observer, refl, record { full = h.full; numbered = h.numbered })

run-from :
    (host : Host) (calls : List BusCall) (bus : RuntimeEventBus)
    → IsComplete host
    → IsKept bus
    → (after : RuntimeEventBus) × (run host calls bus ≡ some after) × IsKept after
unfolding run
run-from host [] bus complete h = (bus, refl, h)
run-from host (call ∷ calls) bus complete h =
    let (mid, e, k) = call_bus-IsKept host bus call complete h in
    let (after, f, last) = run-from host calls mid complete k in (after, rw (e, run) f, last)

-- If each sink is done with a record once, then any calls of a new bus end, and the bus then keeps
-- the newest records, as many as it has room for, numbered one by one up to the last.
pub run-IsKept :
    (host : Host) (calls : List BusCall) (size : ℕ) (sinks : List RuntimeSink)
    → IsComplete host
    → (after : RuntimeEventBus) × (run host calls (make_runtime_event_bus size sinks) ≡ some after)
      × IsKept after
run-IsKept host calls size sinks complete =
    run-from host calls (make_runtime_event_bus size sinks) complete
      (record { full = omega arith; numbered = tt })
