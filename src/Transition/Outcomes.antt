-- ===== src/Transition/Outcomes.antt =====
-- What runTransition of packages/core/src/transition.ts reports.
use frond.Shared.{
  ◌≡◌, refl, sym, ap, ◌∙◌, String, Bool, true, false, Option, none, some, List, [], ◌∷◌, ◌++◌,
  append_assoc, append-nil, length, ◌==◌, nat_eq, arith,
}
use frond.Types.Value.{Value}
use frond.Transition.{
  StepFailurePolicy, abort, continue, TransitionStep, TransitionFailure, run_steps, run_transition,
}

-- The steps up to the first that fails, with it.
abbrev pub up_to_failure : List TransitionStep → List TransitionStep
up_to_failure [] = []
up_to_failure (step ∷ steps) = elim step.run [
  | none ↦ step ∷ up_to_failure steps
  | some cause ↦ step ∷ []
]

abbrev pub ran : StepFailurePolicy → List TransitionStep → List TransitionStep
ran abort steps = up_to_failure steps
ran continue steps = steps

abbrev pub labels_completed : List TransitionStep → List String
labels_completed [] = []
labels_completed (step ∷ steps) = elim step.run [
  | none ↦ step.label ∷ labels_completed steps
  | some cause ↦ labels_completed steps
]

abbrev pub failures_of : List TransitionStep → List TransitionFailure
failures_of [] = []
failures_of (step ∷ steps) = elim step.run [
  | none ↦ failures_of steps
  | some cause ↦ record { label = step.label; cause = cause } ∷ failures_of steps
]

abbrev pub all_succeed : List TransitionStep → Bool
all_succeed [] = true
all_succeed (step ∷ steps) = elim step.run [ none ↦ all_succeed steps | some cause ↦ false ]

abbrev Collected : Type 0
Collected = List String × List TransitionFailure × List TransitionStep

collected_eq :
    {a b : List String} {f g : List TransitionFailure} {s t : List TransitionStep}
    → a ≡ b
    → f ≡ g
    → s ≡ t
    → ◌≡◌ {A = Collected} (a, f, s) (b, g, t)
collected_eq p q r = cc

-- What the loop gives, from what has been collected.
abbrev Collects :
    StepFailurePolicy
    → List TransitionStep
    → List String
    → List TransitionFailure
    → List TransitionStep
    → Type 0
Collects policy steps completed failures invoked =
    let done = ran policy steps in
    ◌≡◌ {A = Collected} (run_steps policy steps completed failures invoked)
      (completed ++ labels_completed done, failures ++ failures_of done, invoked ++ done)

step-Collects :
    (policy : StepFailurePolicy) (label : String) (run : Option Value) (steps : List TransitionStep)
    → ((completed : List String) (failures : List TransitionFailure) (invoked : List TransitionStep)
        → Collects policy steps completed failures invoked)
    → (completed : List String) (failures : List TransitionFailure) (invoked : List TransitionStep)
    → Collects policy (record { label = label; run = run } ∷ steps) completed failures invoked
unfolding run_steps
step-Collects abort label none steps rest completed failures invoked =
    rest (completed ++ label ∷ []) failures (invoked ++ record { label = label; run = none } ∷ [])
    ∙ collected_eq (append_assoc completed _ _) refl (append_assoc invoked _ _)
step-Collects continue label none steps rest completed failures invoked =
    rest (completed ++ label ∷ []) failures (invoked ++ record { label = label; run = none } ∷ [])
    ∙ collected_eq (append_assoc completed _ _) refl (append_assoc invoked _ _)
step-Collects abort label (some cause) steps rest completed failures invoked =
    collected_eq (sym (append-nil completed)) refl refl
step-Collects continue label (some cause) steps rest completed failures invoked =
    rest completed (failures ++ record { label = label; cause = cause } ∷ [])
      (invoked ++ record { label = label; run = some cause } ∷ [])
    ∙ collected_eq refl (append_assoc failures _ _) (append_assoc invoked _ _)

run_steps-Collects :
    (policy : StepFailurePolicy) (steps : List TransitionStep) (completed : List String)
    (failures : List TransitionFailure) (invoked : List TransitionStep)
    → Collects policy steps completed failures invoked
unfolding run_steps
run_steps-Collects abort [] completed failures invoked =
    collected_eq (sym (append-nil completed)) (sym (append-nil failures)) (sym (append-nil invoked))
run_steps-Collects continue [] completed failures invoked =
    collected_eq (sym (append-nil completed)) (sym (append-nil failures)) (sym (append-nil invoked))
run_steps-Collects policy (step ∷ steps) completed failures invoked =
    step-Collects policy step.label step.run steps (λ c f i. run_steps-Collects policy steps c f i)
      completed failures invoked

step-ok :
    (policy : StepFailurePolicy) (label : String) (run : Option Value) (steps : List TransitionStep)
    → (length (failures_of (ran policy steps)) == 0) ≡ all_succeed steps
    → let all = record { label = label; run = run } ∷ steps in
      (length (failures_of (ran policy all)) == 0) ≡ all_succeed all
step-ok abort label none steps h = h
step-ok continue label none steps h = h
step-ok abort label (some cause) steps h = ground arith
step-ok continue label (some cause) steps h = ground arith

ok-lem :
    (policy : StepFailurePolicy) (steps : List TransitionStep)
    → (length (failures_of (ran policy steps)) == 0) ≡ all_succeed steps
ok-lem abort [] = refl
ok-lem continue [] = refl
ok-lem policy (step ∷ steps) = step-ok policy step.label step.run steps (ok-lem policy steps)

-- A transition that aborts runs the steps up to the first that fails, and one that continues runs all
-- of them, in order. It reports the labels of those that succeed and the causes of those that fail, in
-- the order in which they ran, and is ok exactly if every step of the list succeeds.
pub run_transition_lem :
    (policy : StepFailurePolicy) (steps : List TransitionStep)
    → ((run_transition steps policy).invoked ≡ ran policy steps)
      × ((run_transition steps policy).completed ≡ labels_completed (ran policy steps))
      × ((run_transition steps policy).failures ≡ failures_of (ran policy steps))
      × ((run_transition steps policy).ok ≡ all_succeed steps)
unfolding run_transition
run_transition_lem policy steps =
    let all = run_steps-Collects policy steps [] [] [] in
    (
      ap (λ (c : Collected). c.2) all,
      ap (λ (c : Collected). c.0) all,
      ap (λ (c : Collected). c.1) all,
      ap (λ (c : Collected). length c.1 == 0) all ∙ ok-lem policy steps,
    )
