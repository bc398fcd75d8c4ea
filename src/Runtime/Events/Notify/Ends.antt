-- ===== src/Runtime/Events/Notify/Ends.antt =====
-- The calls that one emit of packages/core/src/runtime/eventBus.ts nests: a failure of an observer is
-- told to the sinks, and a failure of a sink to the observers, to a depth of one.
use frond.Shared.{
  ℕ, suc, ◌+◌, ◌≡◌, refl, ap, ◌∙◌, Bool, true, false, if◌then◌else◌, Option, none, List, ltb, arith,
  Bool-cases, Option-cases, inl, inr,
}
use frond.Types.Value.{is_undefined}
use frond.Runtime.Events.{
  RuntimeEvent, RuntimeEventRecord, RuntimeSink, RuntimeEventBus, RuntimeObserver, remember,
}
use frond.Runtime.Events.Notify.{
  Host, Notify, record_observer_failure, record_sink_failure, tell_observer, tell_sink,
  observer_failure, notify_observers, notify_sinks, emit,
}
use frond.Runtime.Events.Notify.Reaches.{
  Ends, times, count, deep_observers, deep_sinks, all_observers, all_sinks, Reaches-refl,
  Reaches-trans, Reaches-weaken, remember-Reaches, IsSized, Reaches-IsSized, for_each-Ends,
}

module _ (host : Host) (observer_fails : RuntimeObserver → Bool) (sink_fails : RuntimeSink → Bool)
    (sound_observer : (observer : RuntimeObserver) (told : RuntimeEventRecord)
      → observer_fails observer ≡ false
      → is_undefined (observer_failure host observer told) ≡ true)
    (sound_sink : (sink : RuntimeSink) (told : RuntimeEventRecord)
      → sink_fails sink ≡ false
      → host.sink_failure sink told ≡ none)
    (permuted : (r : RuntimeEventRecord) (sinks : List RuntimeSink)
      → count sink_fails (host.completed r sinks) ≡ count sink_fails sinks)
    (o s : ℕ) where
  -- A notification at a depth that ends with at most `k` records.
  abbrev Notifies : ℕ → ℕ → Notify host → Type 0
  Notifies depth k notify =
      (bus : RuntimeEventBus) (told : RuntimeEventRecord)
      → IsSized observer_fails sink_fails o s bus
      → Ends k bus (notify bus told depth)

  Ends-same :
      (j k : ℕ) (bus : RuntimeEventBus) (outcome : Option RuntimeEventBus)
      → j ≡ k
      → Ends j bus outcome
      → Ends k bus outcome
  Ends-same j k bus outcome e p = rw (← e) p

  -- A remembered event that is told.
  told-Ends :
      (notify : Notify host) (depth k : ℕ) (bus : RuntimeEventBus) (event : RuntimeEvent)
      (at work : ℕ)
      → Notifies depth k notify
      → IsSized observer_fails sink_fails o s bus
      → let (after, entry) = remember bus event at work in
        Ends (suc k) bus (notify after entry depth)
  told-Ends notify depth k bus event at work tells h =
      let first = remember-Reaches bus event at work in
      let (last, e, p) =
        tells _ _ (Reaches-IsSized observer_fails sink_fails o s 1 bus _ first h) in
      (last, e, Reaches-weaken _ _ bus last (omega arith) (Reaches-trans 1 k bus _ last first p))

  tell_observer-Ends :
      (notify : Notify host) (depth k : ℕ) (bus : RuntimeEventBus) (told : RuntimeEventRecord)
      (observer : RuntimeObserver)
      → (ltb 0 depth ≡ false → Notifies (depth + 1) k notify)
      → IsSized observer_fails sink_fails o s bus
      → Ends
          (if observer_fails observer then suc k else 0)
          bus
          (tell_observer host notify told depth bus observer)
  unfolding record_observer_failure
  tell_observer-Ends notify depth k bus told observer tells h =
      elim (Bool-cases (is_undefined (observer_failure host observer told))) [
        | inl e ↦ rw (e) (bus, refl, Reaches-weaken 0 _ bus bus (omega arith) (Reaches-refl bus))
        | inr e ↦
            Ends-same (suc k) _ bus _ (ground (arith, e, sound_observer observer told))
              (elim (Bool-cases (ltb 0 depth)) [
                | inl deep ↦
                    rw (e, record_observer_failure, deep)
                      (
                        _,
                        refl,
                        Reaches-weaken 1 (suc k) bus _ (omega arith) (remember-Reaches bus _ _ _),
                      )
                | inr shallow ↦
                    rw (e, record_observer_failure, shallow)
                      (told-Ends notify (depth + 1) k bus _ _ _ (tells shallow) h)
              ])
      ]

  tell_sink-Ends :
      (notify : Notify host) (depth k : ℕ) (bus : RuntimeEventBus) (told : RuntimeEventRecord)
      (sink : RuntimeSink)
      → Notifies depth k notify
      → IsSized observer_fails sink_fails o s bus
      → Ends (if sink_fails sink then suc k else 0) bus (tell_sink host notify told depth bus sink)
  unfolding record_sink_failure
  tell_sink-Ends notify depth k bus told sink tells h =
      elim (Option-cases (host.sink_failure sink told)) [
        | inl e ↦
            rw (e, tell_sink)
              (bus, refl, Reaches-weaken 0 _ bus bus (omega arith) (Reaches-refl bus))
        | inr (cause, e) ↦
            Ends-same (suc k) _ bus _ (ground (arith, e, sound_sink sink told))
              (rw (e, tell_sink, record_sink_failure) (told-Ends notify depth k bus _ _ _ tells h))
      ]

  observers-Notifies :
      (depth k fuel : ℕ)
      → (ltb 0 depth ≡ false → Notifies (depth + 1) k (notify_sinks host fuel))
      → Notifies depth (times o (suc k)) (notify_observers host (suc fuel))
  unfolding notify_observers
  observers-Notifies depth k fuel tells bus told h =
      Ends-same _ _ bus _ (ap (λ n. times n (suc k)) h.0) (
        for_each-Ends observer_fails sink_fails observer_fails o s (suc k)
          (tell_observer host (notify_sinks host fuel) told depth) bus bus.observers
          (λ b observer sized.
            tell_observer-Ends (notify_sinks host fuel) depth k b told observer tells sized)
          h)

  sinks-Notifies :
      (depth k fuel : ℕ)
      → Notifies depth k (notify_observers host fuel)
      → Notifies depth (times s (suc k)) (notify_sinks host (suc fuel))
  unfolding notify_observers
  sinks-Notifies depth k fuel tells bus told h =
      Ends-same _ _ bus _ (ap (λ n. times n (suc k)) (permuted told bus.sinks ∙ h.1)) (
        for_each-Ends observer_fails sink_fails sink_fails o s (suc k)
          (tell_sink host (notify_observers host fuel) told depth) bus
          (host.completed told bus.sinks)
          (λ b sink sized.
            tell_sink-Ends (notify_observers host fuel) depth k b told sink tells sized)
          h)

  deep_observers-Notifies :
      (fuel : ℕ) → Notifies 1 (deep_observers o) (notify_observers host (suc fuel))
  deep_observers-Notifies fuel =
      observers-Notifies 1 0 fuel (λ shallow. absurd (ground (arith, shallow)))

  deep_sinks-Notifies :
      (fuel : ℕ) → Notifies 1 (deep_sinks o s) (notify_sinks host (suc (suc fuel)))
  deep_sinks-Notifies fuel =
      sinks-Notifies 1 (deep_observers o) (suc fuel) (deep_observers-Notifies fuel)

  all_observers-Notifies :
      (fuel : ℕ) → Notifies 0 (all_observers o s) (notify_observers host (suc (suc (suc fuel))))
  all_observers-Notifies fuel =
      observers-Notifies 0 (deep_sinks o s) (suc (suc fuel)) (λ shallow. deep_sinks-Notifies fuel)

  all_sinks-Notifies :
      (fuel : ℕ) → Notifies 0 (all_sinks o s) (notify_sinks host (suc (suc (suc (suc fuel)))))
  all_sinks-Notifies fuel =
      sinks-Notifies 0 (all_observers o s) (suc (suc (suc fuel))) (all_observers-Notifies fuel)

  pub emit_nested-Ends :
      (fuel : ℕ) (bus : RuntimeEventBus) (event : RuntimeEvent) (work : ℕ)
      → IsSized observer_fails sink_fails o s bus
      → Ends
          (suc ((all_observers o s) + (all_sinks o s)))
          bus
          (emit host (suc (suc (suc (suc fuel)))) bus event work)
  unfolding emit
  emit_nested-Ends fuel bus event work h =
      let (told, e, p) =
        told-Ends (notify_observers host (suc (suc (suc (suc fuel))))) 0 (all_observers o s) bus
          event (host.clock (bus.sequence + 1)) work (all_observers-Notifies (suc fuel)) h in
      let (last, f, q) =
        all_sinks-Notifies fuel told (remember bus event (host.clock (bus.sequence + 1)) work).1
          (Reaches-IsSized observer_fails sink_fails o s _ bus told p h) in
      (
        last,
        rw (e, f) refl,
        Reaches-weaken _ _ bus last (omega arith) (Reaches-trans _ _ bus told last p q),
      )
