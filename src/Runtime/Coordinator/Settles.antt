-- ===== src/Runtime/Coordinator/Settles.antt =====
-- The transitions that wait under packages/core/src/runtimeCoordinator.ts, once createLease and
-- dispose end. How they end is the callers', the record `Caller`. The chain runs on fuel, and `none`
-- says that it ran out.
use mathlib.Core.Path.{subst}
use frond.Shared.{
  ℕ, zero, suc, ◌+◌, ◌*◌, ◌<◌, ◌≡◌, refl, sym, ap, ◌∙◌, Option, none, some, List, [], ◌∷◌, ◌++◌,
  append-nil, ◌==◌, nat_eq, length, if_both, Option-cases, inl, inr, arith,
}
use frond.Types.Value.{Value}
use frond.Runtime.Coordinator.{
  RuntimeLease, BootOutcome, already_active, resolved, boot_superseded, lease_failed,
  CoordinatorJob, boot, disposal, Awaited, lease_of, superseded_dispose, current_dispose,
  RuntimeCoordinator, CoordinatorEvent, next_turn, lease_created, lease_rejected, disposed,
  dispose_rejected, take_event, coordinator_step, begin, booted, turn,
}
use frond.Runtime.Coordinator.Exclusive.{coordinator}

pub data LeaseEnd : Type 0 where
  created : RuntimeLease → LeaseEnd
  refused : Value → LeaseEnd

pub record Caller : Type 0 where
  pub create_lease : ℕ → LeaseEnd
  pub dispose_lease : RuntimeLease → Option Value

abbrev lease_event : LeaseEnd → CoordinatorEvent
lease_event (created lease) = lease_created lease
lease_event (refused cause) = lease_rejected cause

abbrev dispose_event : Option Value → CoordinatorEvent
dispose_event none = disposed
dispose_event (some cause) = dispose_rejected cause

-- The next event if no one calls.
abbrev pub next_event : Caller → Option Awaited → CoordinatorEvent
next_event caller none = next_turn
next_event caller (some (lease_of g)) = lease_event (caller.create_lease g)
next_event caller (some (superseded_dispose g lease)) = dispose_event (caller.dispose_lease lease)
next_event caller (some (current_dispose lease)) = dispose_event (caller.dispose_lease lease)

abbrev pub advance : Caller → RuntimeCoordinator → Option RuntimeCoordinator
advance caller c = coordinator_step c (next_event caller c.awaited)

pub run_chain : ℕ → Caller → RuntimeCoordinator → Option RuntimeCoordinator
run_chain zero caller c = none
run_chain (suc fuel) caller c = elim (advance caller c) [
  | none ↦ some c
  | some after ↦ run_chain fuel caller after
]

-- The starts that have an outcome, and those that have none yet, in the order of the calls.
abbrev pub numbers : List (ℕ × BootOutcome) → List ℕ
numbers [] = []
numbers ((g, outcome) ∷ outcomes) = g ∷ numbers outcomes

abbrev pub boots : List CoordinatorJob → List ℕ
boots [] = []
boots (boot g ∷ jobs) = g ∷ boots jobs
boots (disposal ∷ jobs) = boots jobs

abbrev pub pending : Option Awaited → List CoordinatorJob → List ℕ
pending (some (lease_of g)) jobs = g ∷ boots jobs
pending (some (superseded_dispose g lease)) jobs = g ∷ boots jobs
pending _ jobs = boots jobs

abbrev pub started : RuntimeCoordinator → List ℕ
started c = numbers c.outcomes ++ pending c.awaited c.waiting

-- The most events that the chain has before it.
abbrev pub remaining : Option Awaited → ℕ
remaining none = 0
remaining (some (lease_of g)) = 2
remaining (some _) = 1

abbrev pub weight : RuntimeCoordinator → ℕ
weight c = remaining c.awaited + 3 * length c.waiting

numbers-append :
    (outcomes : List (ℕ × BootOutcome)) (g : ℕ) (outcome : BootOutcome) (jobs : List ℕ)
    → numbers (outcomes ++ (g, outcome) ∷ []) ++ jobs ≡ numbers outcomes ++ g ∷ jobs
numbers-append [] g outcome jobs = refl
numbers-append ((h, other) ∷ outcomes) g outcome jobs =
    ap (λ l. h ∷ l) (numbers-append outcomes g outcome jobs)

-- An event brings the chain forward, and without one the chain is idle.
abbrev Advances : RuntimeCoordinator → Option RuntimeCoordinator → Type 0
Advances c none = (c.waiting ≡ []) × (c.awaited ≡ none)
Advances c (some after) = (weight after < weight c) × (started after ≡ started c)

module _ (caller : Caller) (g : ℕ) (outcomes : List (ℕ × BootOutcome)) where
  turn-Advances :
      (current : Option RuntimeLease) (waiting : List CoordinatorJob)
      → Advances
          (coordinator g current none waiting outcomes)
          (turn (coordinator g current none waiting outcomes) waiting)
  unfolding begin
  turn-Advances current [] = (refl, refl)
  turn-Advances none (boot n ∷ rest) = (omega arith, refl)
  turn-Advances (some lease) (boot n ∷ rest) =
      (omega arith, numbers-append outcomes n already_active (boots rest))
  turn-Advances none (disposal ∷ rest) = (omega arith, refl)
  turn-Advances (some lease) (disposal ∷ rest) = (omega arith, refl)

  booted-Advances :
      (current : Option RuntimeLease) (waiting : List CoordinatorJob) (n : ℕ) (lease : RuntimeLease)
      → let c = coordinator g current (some (lease_of n)) waiting outcomes in
        Advances c (some (booted c n lease))
  unfolding booted
  booted-Advances current waiting n lease =
      let c = coordinator g current (some (lease_of n)) waiting outcomes in
      if_both (λ (after : RuntimeCoordinator). Advances c (some after)) (g == n) _ _
        (λ e. (omega arith, numbers-append outcomes n (resolved lease) (boots waiting)))
        (λ e. (omega arith, refl))

  lease_event-Advances :
      (current : Option RuntimeLease) (waiting : List CoordinatorJob) (n : ℕ) (ending : LeaseEnd)
      → let c = coordinator g current (some (lease_of n)) waiting outcomes in
        Advances c (coordinator_step c (lease_event ending))
  unfolding take_event
  lease_event-Advances current waiting n (created lease) = booted-Advances current waiting n lease
  lease_event-Advances current waiting n (refused cause) =
      (omega arith, numbers-append outcomes n (lease_failed cause) (boots waiting))

  superseded-Advances :
      (current : Option RuntimeLease) (waiting : List CoordinatorJob) (n : ℕ) (lease : RuntimeLease)
      (ending : Option Value)
      → let c = coordinator g current (some (superseded_dispose n lease)) waiting outcomes in
        Advances c (coordinator_step c (dispose_event ending))
  unfolding take_event
  superseded-Advances current waiting n lease none =
      (omega arith, numbers-append outcomes n boot_superseded (boots waiting))
  superseded-Advances current waiting n lease (some cause) =
      (omega arith, numbers-append outcomes n (lease_failed cause) (boots waiting))

  disposal-Advances :
      (current : Option RuntimeLease) (waiting : List CoordinatorJob) (lease : RuntimeLease)
      (ending : Option Value)
      → let c = coordinator g current (some (current_dispose lease)) waiting outcomes in
        Advances c (coordinator_step c (dispose_event ending))
  unfolding take_event
  disposal-Advances current waiting lease none = (omega arith, refl)
  disposal-Advances current waiting lease (some cause) = (omega arith, refl)

  advance-Advances :
      (current : Option RuntimeLease) (awaited : Option Awaited) (waiting : List CoordinatorJob)
      → let c = coordinator g current awaited waiting outcomes in Advances c (advance caller c)
  unfolding take_event
  advance-Advances current none waiting = turn-Advances current waiting
  advance-Advances current (some (lease_of n)) waiting =
      lease_event-Advances current waiting n (caller.create_lease n)
  advance-Advances current (some (superseded_dispose n lease)) waiting =
      superseded-Advances current waiting n lease (caller.dispose_lease lease)
  advance-Advances current (some (current_dispose lease)) waiting =
      disposal-Advances current waiting lease (caller.dispose_lease lease)

-- Once the callers' createLease and dispose end, the chain comes to rest within three events for each
-- transition, and then every start that was called has an outcome, each one, in the order of the calls.
pub run_chain_settles :
    (caller : Caller) (fuel : ℕ) (c : RuntimeCoordinator)
    → weight c < fuel
    → (last : RuntimeCoordinator) × (run_chain fuel caller c ≡ some last)
      × (last.waiting ≡ [])
      × (last.awaited ≡ none)
      × (numbers last.outcomes ≡ started c)
unfolding run_chain
run_chain_settles caller zero c h = absurd (omega (arith, h))
run_chain_settles caller (suc fuel) c h =
    let step = advance-Advances caller c.generation c.outcomes c.current c.awaited c.waiting in
    elim (Option-cases (advance caller c)) [
      | inl e ↦
          let (idle, rested) : Advances c none = subst (Advances c) e step in
          let all : numbers c.outcomes ≡ started c = sym (
            ap (λ a. numbers c.outcomes ++ pending a c.waiting) rested
            ∙ ap (λ jobs. numbers c.outcomes ++ pending none jobs) idle
            ∙ append-nil (numbers c.outcomes)) in
          (c, rw (e, run_chain) refl, idle, rested, all)
      | inr (after, e) ↦
          let (less, same) : Advances c (some after) = subst (Advances c) e step in
          let (last, f, idle, rested, all) =
            run_chain_settles caller fuel after (omega (arith, less, h)) in
          (last, rw (e, run_chain) f, idle, rested, all ∙ same)
    ]
