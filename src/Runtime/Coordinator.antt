-- ===== src/Runtime/Coordinator.antt =====
-- createRuntimeCoordinator of packages/core/src/runtimeCoordinator.ts. A call chains its transition
-- behind the ones before it; what happens next is an event: a call of start or dispose, the next
-- transition's turn, and the end of a createLease or of a lease's dispose, which are the caller's.
-- A lease is its reference; `none` says that an event cannot coordinator_step. A `Promise` that a call returned
-- is the number of its start with its outcome, in the order in which they settle_boot.
pub mod Exclusive
pub mod Settles
use frond.Shared.{ℕ, ◌+◌, Option, none, some, List, [], ◌∷◌, ◌++◌, if◌then◌else◌, ◌==◌, nat_eq}
use frond.Types.Value.{Value}

abbrev pub RuntimeLease : Type 0
RuntimeLease = ℕ

pub data BootOutcome : Type 0 where
  resolved : RuntimeLease → BootOutcome
  already_active boot_superseded : BootOutcome
  lease_failed : Value → BootOutcome

pub data CoordinatorJob : Type 0 where
  boot : ℕ → CoordinatorJob
  disposal : CoordinatorJob

-- What the transition at the front waits for: createLease, the dispose of the lease of a superseded
-- boot, or the dispose of what was current.
pub data Awaited : Type 0 where
  lease_of : ℕ → Awaited
  superseded_dispose : ℕ → RuntimeLease → Awaited
  current_dispose : RuntimeLease → Awaited

pub record RuntimeCoordinator : Type 0 where
  pub generation : ℕ
  pub current : Option RuntimeLease
  pub awaited : Option Awaited
  pub waiting : List CoordinatorJob
  pub outcomes : List (ℕ × BootOutcome)

abbrev pub create_runtime_coordinator : RuntimeCoordinator
create_runtime_coordinator = record {
  generation = 0;
  current = none;
  awaited = none;
  waiting = [];
  outcomes = [];
}

pub data CoordinatorEvent : Type 0 where
  call_start call_dispose next_turn : CoordinatorEvent
  lease_created : RuntimeLease → CoordinatorEvent
  lease_rejected : Value → CoordinatorEvent
  disposed : CoordinatorEvent
  dispose_rejected : Value → CoordinatorEvent

unfoldable pub start : RuntimeCoordinator → RuntimeCoordinator
start c = record c {
  generation = c.generation + 1;
  waiting = c.waiting ++ boot (c.generation + 1) ∷ [];
}

unfoldable pub dispose : RuntimeCoordinator → RuntimeCoordinator
dispose c = record c { generation = c.generation + 1; waiting = c.waiting ++ disposal ∷ [] }

abbrev pub settle_boot : ℕ → BootOutcome → RuntimeCoordinator → RuntimeCoordinator
settle_boot g outcome c = record c { awaited = none; outcomes = c.outcomes ++ (g, outcome) ∷ [] }

-- A transition begins, with the jobs that wait behind it.
unfoldable pub begin :
    RuntimeCoordinator → CoordinatorJob → List CoordinatorJob → RuntimeCoordinator
begin c (boot g) rest = elim c.current [
  | some lease ↦ settle_boot g already_active (record c { waiting = rest })
  | none ↦ record c { awaited = some (lease_of g); waiting = rest }
]
begin c disposal rest = elim c.current [
  | some lease ↦ record c { current = none; awaited = some (current_dispose lease); waiting = rest }
  | none ↦ record c { waiting = rest }
]

abbrev pub turn : RuntimeCoordinator → List CoordinatorJob → Option RuntimeCoordinator
turn c [] = none
turn c (job ∷ rest) = some (begin c job rest)

-- createLease resolved, for the boot of a generation.
unfoldable pub booted : RuntimeCoordinator → ℕ → RuntimeLease → RuntimeCoordinator
booted c g lease =
    if c.generation == g
    then settle_boot g (resolved lease) (record c { current = some lease })
    else record c { awaited = some (superseded_dispose g lease) }

unfoldable pub take_event :
    RuntimeCoordinator → Option Awaited → CoordinatorEvent → Option RuntimeCoordinator
unfolding start dispose begin booted
take_event c awaited call_start = some (start c)
take_event c awaited call_dispose = some (dispose c)
take_event c none next_turn = turn c c.waiting
take_event c (some (lease_of g)) (lease_created lease) = some (booted c g lease)
take_event c (some (lease_of g)) (lease_rejected cause) =
    some (settle_boot g (lease_failed cause) c)
take_event c (some (superseded_dispose g lease)) disposed = some (settle_boot g boot_superseded c)
take_event c (some (superseded_dispose g lease)) (dispose_rejected cause) =
    some (settle_boot g (lease_failed cause) c)
take_event c (some (current_dispose lease)) disposed = some (record c { awaited = none })
take_event c (some (current_dispose lease)) (dispose_rejected cause) =
    some (record c { awaited = none })
take_event c awaited event = none

abbrev pub coordinator_step : RuntimeCoordinator → CoordinatorEvent → Option RuntimeCoordinator
coordinator_step c event = take_event c c.awaited event
