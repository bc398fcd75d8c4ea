-- ===== src/Scenarios/Transitions.antt =====
-- A sign-out of three steps, the second of which fails.
use frond.Shared.{◌≡◌, refl, ◌≤◌, true, ◌++◌, has, nat_eq, none, some, List, [], ◌∷◌, length}
use frond.Types.Value.{text}
use frond.Transition.{
  TransitionStep, abort, run_transition, create_transition, invoke, run_returned, run_settled,
}
use frond.Transition.Outcomes.{ran, labels_completed, failures_of, all_succeed, run_transition_lem}
use frond.Transition.Flights.{
  FlightEvent, called, returned, settled, flights, no_reentry, as_list, flights-single_flight,
}

abbrev steps : List TransitionStep
steps =
    record { label = "stop"; run = none }
    ∷ record { label = "revoke"; run = some (text "offline") }
    ∷ record { label = "forget"; run = none }
    ∷ []

run_transition_lem_example :
    ((run_transition steps abort).invoked ≡ ran abort steps)
    × ((run_transition steps abort).completed ≡ labels_completed (ran abort steps))
    × ((run_transition steps abort).failures ≡ failures_of (ran abort steps))
    × ((run_transition steps abort).ok ≡ all_succeed steps)
run_transition_lem_example = run_transition_lem abort steps

abbrev events : List FlightEvent
events = called ∷ returned ∷ called ∷ settled 0 ∷ called ∷ returned ∷ settled 0 ∷ []

events-alone : no_reentry create_transition events ≡ true
unfolding no_reentry invoke run_returned run_settled
events-alone = refl

flights-single_flight_example :
    let t = flights create_transition events in
    (t.running ≡ t.starting ++ as_list t.in_flight)
    × (length t.running ≤ 1)
    × (has (invoke t).1 (invoke t).0.running ≡ true)
flights-single_flight_example = flights-single_flight events events-alone

-- A first step that calls the transition starts a second run.
reentrant :
    (flights create_transition (called ∷ called ∷ returned ∷ returned ∷ [])).running ≡ 1 ∷ 0 ∷ []
unfolding flights invoke run_returned
reentrant = refl
