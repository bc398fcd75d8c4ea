-- ===== src/Runtime/Coordinator/Exclusive.antt =====
-- The leases that are alive under packages/core/src/runtimeCoordinator.ts.
use frond.Shared.{
  ℕ, ◌≤◌, ◌≡◌, refl, Option, none, some, List, [], ◌∷◌, ◌==◌, beq_refl, nat_eq, not, keep, if_both,
  Option-cases, inl, inr, length, arith, ap,
}
use mathlib.Core.Path.{subst}
use frond.Runtime.Coordinator.{
  RuntimeLease, BootOutcome, CoordinatorJob, boot, disposal, Awaited, lease_of, superseded_dispose,
  current_dispose, RuntimeCoordinator, create_runtime_coordinator, CoordinatorEvent, call_start,
  call_dispose, next_turn, lease_created, lease_rejected, disposed, dispose_rejected, take_event,
  coordinator_step, start, dispose, begin, booted, turn,
}

-- The lease whose dispose is awaited.
abbrev pub disposing : Option Awaited → Option RuntimeLease
disposing (some (superseded_dispose g lease)) = some lease
disposing (some (current_dispose lease)) = some lease
disposing _ = none

abbrev pub gone : Option RuntimeLease → List RuntimeLease → List RuntimeLease
gone none alive = alive
gone (some lease) alive = keep (λ other. not (other == lease)) alive

-- The leases that were created and whose dispose has not ended, event by event.
abbrev pub alive_after : Option Awaited → CoordinatorEvent → List RuntimeLease → List RuntimeLease
alive_after awaited (lease_created lease) alive = lease ∷ alive
alive_after awaited disposed alive = gone (disposing awaited) alive
alive_after awaited (dispose_rejected cause) alive = gone (disposing awaited) alive
alive_after awaited _ alive = alive

unfoldable pub run :
    RuntimeCoordinator
    → List RuntimeLease
    → List CoordinatorEvent
    → Option (RuntimeCoordinator × List RuntimeLease)
run c alive [] = some (c, alive)
run c alive (event ∷ events) = elim (coordinator_step c event) [
  | none ↦ none
  | some after ↦ run after (alive_after c.awaited event alive) events
]

-- The only lease alive is the current one or the one whose dispose is awaited, and a lease is
-- current only while nothing is awaited: while a lease is being created there is none.
abbrev pub Owns : Option RuntimeLease → Option Awaited → List RuntimeLease → Type 0
Owns none none alive = alive ≡ []
Owns (some lease) none alive = alive ≡ lease ∷ []
Owns none (some (lease_of g)) alive = alive ≡ []
Owns none (some (superseded_dispose g lease)) alive = alive ≡ lease ∷ []
Owns none (some (current_dispose lease)) alive = alive ≡ lease ∷ []
Owns (some lease) (some awaited) alive = ⊥

Owns-length :
    (current : Option RuntimeLease) (awaited : Option Awaited) (alive : List RuntimeLease)
    → Owns current awaited alive
    → length alive ≤ 1
Owns-length none none alive h = rw (h) (omega arith)
Owns-length (some lease) none alive h = rw (h) (omega arith)
Owns-length none (some (lease_of g)) alive h = rw (h) (omega arith)
Owns-length none (some (superseded_dispose g lease)) alive h = rw (h) (omega arith)
Owns-length none (some (current_dispose lease)) alive h = rw (h) (omega arith)
Owns-length (some lease) (some awaited) alive h = absurd h

gone-one :
    (lease : RuntimeLease) (alive : List RuntimeLease)
    → alive ≡ lease ∷ []
    → gone (some lease) alive ≡ []
gone-one lease alive e = rw (e, beq_refl lease) refl

-- A coordinator of given parts, and what holds of what an event makes of it.
abbrev pub coordinator :
    ℕ
    → Option RuntimeLease
    → Option Awaited
    → List CoordinatorJob
    → List (ℕ × BootOutcome)
    → RuntimeCoordinator
coordinator generation current awaited waiting outcomes = record {
  generation = generation;
  current = current;
  awaited = awaited;
  waiting = waiting;
  outcomes = outcomes;
}

abbrev OwnsAfter : List RuntimeLease → Option RuntimeCoordinator → Type 0
OwnsAfter alive none = Unit
OwnsAfter alive (some after) = Owns after.current after.awaited alive

module _ (g : ℕ) (waiting : List CoordinatorJob) (outcomes : List (ℕ × BootOutcome)) where
  turn-OwnsAfter :
      (current : Option RuntimeLease) (alive : List RuntimeLease) (jobs : List CoordinatorJob)
      → Owns current none alive
      → OwnsAfter alive (turn (coordinator g current none waiting outcomes) jobs)
  unfolding begin
  turn-OwnsAfter current alive [] h = tt
  turn-OwnsAfter none alive (boot n ∷ rest) h = h
  turn-OwnsAfter (some lease) alive (boot n ∷ rest) h = h
  turn-OwnsAfter none alive (disposal ∷ rest) h = h
  turn-OwnsAfter (some lease) alive (disposal ∷ rest) h = h

  booted-Owns :
      (n : ℕ) (lease : RuntimeLease) (alive : List RuntimeLease)
      → alive ≡ []
      → let after = booted (coordinator g none (some (lease_of n)) waiting outcomes) n lease in
        Owns after.current after.awaited (lease ∷ alive)
  unfolding booted
  booted-Owns n lease alive h =
      if_both (λ (after : RuntimeCoordinator). Owns after.current after.awaited (lease ∷ alive))
        (g == n) _ _ (λ e. ap (λ l. lease ∷ l) h) (λ e. ap (λ l. lease ∷ l) h)

  step-Owns :
      (current : Option RuntimeLease) (awaited : Option Awaited) (alive : List RuntimeLease)
      (event : CoordinatorEvent)
      → Owns current awaited alive
      → OwnsAfter
          (alive_after awaited event alive)
          (coordinator_step (coordinator g current awaited waiting outcomes) event)
  unfolding take_event start dispose
  step-Owns current awaited alive call_start h = h
  step-Owns current awaited alive call_dispose h = h
  step-Owns current none alive next_turn h = turn-OwnsAfter current alive waiting h
  step-Owns none (some (lease_of n)) alive (lease_created lease) h = booted-Owns n lease alive h
  step-Owns none (some (lease_of n)) alive (lease_rejected cause) h = h
  step-Owns none (some (superseded_dispose n lease)) alive disposed h = gone-one lease alive h
  step-Owns none (some (superseded_dispose n lease)) alive (dispose_rejected cause) h =
      gone-one lease alive h
  step-Owns none (some (current_dispose lease)) alive disposed h = gone-one lease alive h
  step-Owns none (some (current_dispose lease)) alive (dispose_rejected cause) h =
      gone-one lease alive h
  step-Owns (some lease) (some other) alive event h = absurd h
  step-Owns _ _ alive _ h = tt

abbrev OwnsResult : Option (RuntimeCoordinator × List RuntimeLease) → Type 0
OwnsResult none = Unit
OwnsResult (some (after, alive)) = Owns after.current after.awaited alive

run-OwnsResult :
    (c : RuntimeCoordinator) (alive : List RuntimeLease) (events : List CoordinatorEvent)
    → Owns c.current c.awaited alive
    → OwnsResult (run c alive events)
unfolding run
run-OwnsResult c alive [] h = h
run-OwnsResult c alive (event ∷ events) h =
    let step = step-Owns c.generation c.waiting c.outcomes c.current c.awaited alive event h in
    elim (Option-cases (coordinator_step c event)) [
      | inl e ↦ rw (e, run) tt
      | inr (mid, e) ↦
          let owns : OwnsAfter (alive_after c.awaited event alive) (some mid) =
            subst (OwnsAfter (alive_after c.awaited event alive)) e step in
          rw (e, run) (run-OwnsResult mid (alive_after c.awaited event alive) events owns)
    ]

-- However the calls and the ends of createLease and of dispose are ordered, at most one lease is
-- alive, the one that is current or whose dispose is awaited. While a lease is being created none is:
-- the boot of a replacement begins only after the dispose of what was there has ended.
pub run-Owns :
    (events : List CoordinatorEvent) (after : RuntimeCoordinator) (alive : List RuntimeLease)
    → run create_runtime_coordinator [] events ≡ some (after, alive)
    → (length alive ≤ 1) × Owns after.current after.awaited alive
run-Owns events after alive e =
    let owns : OwnsResult (some (after, alive)) =
      subst OwnsResult e (run-OwnsResult create_runtime_coordinator [] events refl) in
    (Owns-length after.current after.awaited alive owns, owns)
