-- ===== src/Transition.antt =====
-- Ordered steps with a failure policy, and their single flight: packages/core/src/transition.ts. What
-- a step does is the author's, and settles as its `run` does: `none` if it succeeds, or its cause.
pub mod Outcomes
pub mod Flights
use frond.Shared.{
  ℕ, ◌+◌, String, Bool, true, false, Option, none, some, List, [], ◌∷◌, ◌++◌, if◌then◌else◌, length,
  ◌==◌, nat_eq, not, keep,
}
use frond.Types.Value.{Value}

pub data StepFailurePolicy : Type 0 where
  abort continue : StepFailurePolicy

pub record TransitionStep : Type 0 where
  pub label : String
  pub run : Option Value

pub record TransitionFailure : Type 0 where
  pub label : String
  pub cause : Value

-- `invoked` is what was run, for the order of the effects.
pub record TransitionOutcome : Type 0 where
  pub completed : List String
  pub failures : List TransitionFailure
  pub ok : Bool
  pub invoked : List TransitionStep

abbrev pub is_abort : StepFailurePolicy → Bool
is_abort abort = true
is_abort continue = false

-- The loop, from what has been collected.
pub run_steps :
    StepFailurePolicy
    → List TransitionStep
    → List String
    → List TransitionFailure
    → List TransitionStep
    → List String × List TransitionFailure × List TransitionStep
run_steps policy [] completed failures invoked = (completed, failures, invoked)
run_steps policy (step ∷ steps) completed failures invoked =
    let now = invoked ++ step ∷ [] in
    let succeeded = run_steps policy steps (completed ++ step.label ∷ []) failures now in
    let went_on : Value → List String × List TransitionFailure × List TransitionStep = λ cause.
      run_steps policy steps completed
        (failures ++ record { label = step.label; cause = cause } ∷ []) now in
    elim step.run [
      | none ↦ succeeded
      | some cause ↦
          if is_abort policy
          then (completed, failures ++ record { label = step.label; cause = cause } ∷ [], now)
          else went_on cause
    ]

unfoldable pub run_transition : List TransitionStep → StepFailurePolicy → TransitionOutcome
unfolding run_steps
run_transition steps policy =
    let (completed, failures, invoked) = run_steps policy steps [] [] [] in
    record {
      completed = completed;
      failures = failures;
      ok = length failures == 0;
      invoked = invoked;
    }

-- The `Promise` of a run is its number; `starting` are the calls of runTransition that have not come
-- back, the last one first: they run the first step up to its first wait. `running` are the runs that
-- have not settled.
pub record TransitionInvoker : Type 0 where
  pub in_flight : Option ℕ
  pub starting : List ℕ
  pub running : List ℕ
  pub count : ℕ

abbrev pub create_transition : TransitionInvoker
create_transition = record { in_flight = none; starting = []; running = []; count = 0 }

-- A call, up to where it returns the run in flight or calls runTransition, with its run.
unfoldable pub invoke : TransitionInvoker → TransitionInvoker × ℕ
invoke t = elim t.in_flight [
  | some run ↦ (t, run)
  | none ↦ (
    record t {
      starting = t.count ∷ t.starting;
      running = t.count ∷ t.running;
      count = t.count + 1;
    },
    t.count,
  )
]

-- `inFlight = run`, where runTransition comes back.
abbrev pub entered : TransitionInvoker → List ℕ → TransitionInvoker
entered t [] = t
entered t (run ∷ others) = record t { in_flight = some run; starting = others }

unfoldable pub run_returned : TransitionInvoker → TransitionInvoker
run_returned t = entered t t.starting

-- `if (inFlight === run) inFlight = undefined`.
abbrev pub cleared : Option ℕ → ℕ → Option ℕ
cleared none run = none
cleared (some current) run = if current == run then none else some current

-- The callback of a run, which is called from no other call.
unfoldable pub run_settled : TransitionInvoker → ℕ → TransitionInvoker
run_settled t run = record t {
  in_flight = cleared t.in_flight run;
  running = keep (λ other. not (other == run)) t.running;
}
