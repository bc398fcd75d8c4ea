-- ===== src/Runtime/Events/Notify.antt =====
-- notifyObservers, notifySinks and emit of packages/core/src/runtime/eventBus.ts. Observers and sinks
-- are the host's code: whether each fails on a record is a parameter, and so is the order in which
-- the sinks, which run at once, are done with a record. The calls are nested on fuel, and `none` says
-- that it ran out.
pub mod Kept
pub mod Reaches
pub mod Ends
pub mod Runs
use frond.Shared.{ℕ, zero, suc, ◌+◌, String, Option, none, some, List, [], ◌∷◌, if◌then◌else◌, ltb}
use frond.Types.Value.{Value, undefined, is_undefined}
use frond.Runtime.Events.{
  RuntimeEvent, runtime_observer_failure_observed, runtime_sink_failure_observed, event_tag,
  RuntimeEventRecord, RuntimeSink, RuntimeObserver, RuntimeEventBus, remember,
}

-- The host: what a call of an observer and of a sink raises, the order of the sinks, and the clock,
-- read for the record of a number.
pub record Host : Type 0 where
  pub observer_raises : RuntimeObserver → RuntimeEventRecord → Option Value
  pub sink_failure : RuntimeSink → RuntimeEventRecord → Option Value
  pub completed : RuntimeEventRecord → List RuntimeSink → List RuntimeSink
  pub clock : ℕ → ℕ

-- Effect.forEach, one after the other.
unfoldable pub for_each :
    {A : Type 0}
    → (RuntimeEventBus → A → Option RuntimeEventBus)
    → RuntimeEventBus
    → List A
    → Option RuntimeEventBus
for_each handle bus [] = some bus
for_each handle bus (a ∷ rest) = elim (handle bus a) [
  | none ↦ none
  | some after ↦ for_each handle after rest
]

module _ (host : Host) where
  -- What a record is told to next, with the depth.
  abbrev pub Notify : Type 0
  Notify = RuntimeEventBus → RuntimeEventRecord → ℕ → Option RuntimeEventBus

  unfoldable pub record_observer_failure :
      Notify → RuntimeEventBus → RuntimeEventRecord → Value → ℕ → Option RuntimeEventBus
  unfolding remember
  record_observer_failure notify_sinks bus told cause depth =
      let at = host.clock (bus.sequence + 1) in
      let (after, entry) =
        remember bus (runtime_observer_failure_observed (event_tag told.event) cause at) at
          told.work in
      if ltb 0 depth then some after else notify_sinks after entry (depth + 1)

  unfoldable pub record_sink_failure :
      Notify
      → RuntimeEventBus
      → RuntimeSink
      → RuntimeEventRecord
      → Value
      → ℕ
      → Option RuntimeEventBus
  unfolding remember
  record_sink_failure notify_observers bus sink told cause depth =
      let at = host.clock (bus.sequence + 1) in
      let (after, entry) =
        remember bus (runtime_sink_failure_observed sink.name (event_tag told.event) cause at) at
          told.work in
      notify_observers after entry depth

  -- `undefined` if the observer returns, and what it throws otherwise.
  abbrev pub observer_failure : RuntimeObserver → RuntimeEventRecord → Value
  observer_failure observer told = elim (host.observer_raises observer told) [
    | none ↦ undefined
    | some cause ↦ cause
  ]

  -- The body for one observer and for one sink.
  abbrev pub tell_observer :
      Notify → RuntimeEventRecord → ℕ → RuntimeEventBus → RuntimeObserver → Option RuntimeEventBus
  tell_observer notify_sinks told depth bus observer =
      if is_undefined (observer_failure observer told)
      then some bus
      else record_observer_failure notify_sinks bus told (observer_failure observer told) depth

  abbrev pub tell_sink :
      Notify → RuntimeEventRecord → ℕ → RuntimeEventBus → RuntimeSink → Option RuntimeEventBus
  tell_sink notify_observers told depth bus sink = elim (host.sink_failure sink told) [
    | none ↦ some bus
    | some cause ↦ record_sink_failure notify_observers bus sink told cause depth
  ]

  unfoldable mutual
    unfolding for_each record_observer_failure record_sink_failure

    pub notify_observers : ℕ → Notify
    notify_observers zero bus told depth = none
    notify_observers (suc fuel) bus told depth =
        for_each (tell_observer (notify_sinks fuel) told depth) bus bus.observers

    pub notify_sinks : ℕ → Notify
    notify_sinks zero bus told depth = none
    notify_sinks (suc fuel) bus told depth =
        for_each (tell_sink (notify_observers fuel) told depth) bus (host.completed told bus.sinks)

  unfoldable pub emit : ℕ → RuntimeEventBus → RuntimeEvent → ℕ → Option RuntimeEventBus
  unfolding notify_observers remember
  emit fuel bus event work =
      let (after, entry) = remember bus event (host.clock (bus.sequence + 1)) work in
      elim (notify_observers fuel after entry 0) [
        | none ↦ none
        | some told ↦ notify_sinks fuel told entry 0
      ]
