-- ===== src/Scenarios/Coordinators.antt =====
-- A runtime that is replaced while it boots.
use frond.Shared.{◌+◌, ◌≡◌, ◌≤◌, refl, none, some, List, [], ◌∷◌, length, arith}
use frond.Types.Value.{text}
use frond.Runtime.Coordinator.{
  RuntimeLease, take_event, RuntimeCoordinator, create_runtime_coordinator, CoordinatorEvent,
  call_start, call_dispose, next_turn, lease_created, disposed, resolved, boot_superseded, boot,
  disposal, lease_of,
}
use frond.Runtime.Coordinator.Exclusive.{run, Owns, run-Owns}
use frond.Runtime.Coordinator.Settles.{
  Caller, created, run_chain, numbers, started, run_chain_settles,
}

-- The second start supersedes the boot of the first one.
abbrev replaced : List CoordinatorEvent
replaced =
    call_start
    ∷ next_turn
    ∷ call_dispose
    ∷ call_start
    ∷ lease_created 41
    ∷ disposed
    ∷ next_turn
    ∷ next_turn
    ∷ lease_created 42
    ∷ []

abbrev replaced_state : RuntimeCoordinator
replaced_state = record {
  generation = 3;
  current = some 42;
  awaited = none;
  waiting = [];
  outcomes = (1, boot_superseded) ∷ (3, resolved 42) ∷ [];
}

abbrev alive : List RuntimeLease
alive = 42 ∷ []

replaced-run : run create_runtime_coordinator [] replaced ≡ some (replaced_state, alive)
unfolding run take_event
replaced-run = refl

run-Owns_example : (length alive ≤ 1) × Owns replaced_state.current replaced_state.awaited alive
run-Owns_example = run-Owns replaced replaced_state alive replaced-run

abbrev caller : Caller
caller = record {
  create_lease = λ g. created (40 + g);
  dispose_lease = λ lease. some (text "busy");
}

abbrev booting : RuntimeCoordinator
booting = record {
  generation = 3;
  current = none;
  awaited = some (lease_of 1);
  waiting = disposal ∷ boot 3 ∷ [];
  outcomes = [];
}

run_chain_settles_example :
    (last : RuntimeCoordinator) × (run_chain 9 caller booting ≡ some last)
    × (last.waiting ≡ [])
    × (last.awaited ≡ none)
    × (numbers last.outcomes ≡ started booting)
run_chain_settles_example = run_chain_settles caller 9 booting (omega arith)
