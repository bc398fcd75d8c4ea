-- ===== src/Transition/Flights.antt =====
-- The runs of createTransition of packages/core/src/transition.ts.
use frond.Shared.{
  ℕ, ◌+◌, ◌≤◌, ◌≡◌, refl, Bool, true, ◌&&◌, Option, none, some, List, [], ◌∷◌, ◌++◌, ◌==◌, nat_eq,
  length, has, beq_refl, Bool-cases, inl, inr, arith,
}
use frond.Transition.{TransitionInvoker, create_transition, invoke, run_returned, run_settled}

-- A call, the return of the last call of runTransition, and the end of a run.
pub data FlightEvent : Type 0 where
  called returned : FlightEvent
  settled : ℕ → FlightEvent

abbrev pub is_empty : List ℕ → Bool
is_empty [] = true
is_empty (run ∷ runs) = Bool.false

-- A run settles only while no call is under way.
abbrev pub settle_alone : TransitionInvoker → List ℕ → ℕ → TransitionInvoker
settle_alone t [] run = run_settled t run
settle_alone t (other ∷ others) run = t

abbrev pub flight_step : TransitionInvoker → FlightEvent → TransitionInvoker
flight_step t called = (invoke t).0
flight_step t returned = run_returned t
flight_step t (settled run) = settle_alone t t.starting run

unfoldable pub flights : TransitionInvoker → List FlightEvent → TransitionInvoker
flights t [] = t
flights t (event ∷ events) = flights (flight_step t event) events

-- No step calls the transition before it first waits.
abbrev pub calls_alone : TransitionInvoker → FlightEvent → Bool
calls_alone t called = is_empty t.starting
calls_alone t _ = true

unfoldable pub no_reentry : TransitionInvoker → List FlightEvent → Bool
no_reentry t [] = true
no_reentry t (event ∷ events) = calls_alone t event && no_reentry (flight_step t event) events

abbrev pub as_list : Option ℕ → List ℕ
as_list none = []
as_list (some run) = run ∷ []

-- No run, one whose first step runs, or one in flight.
data IsSingle : TransitionInvoker → Type 0 where
  idle :
      (count : ℕ)
      → IsSingle (record { in_flight = none; starting = []; running = []; count = count })
  entering :
      (run count : ℕ)
      → IsSingle
          (record { in_flight = none; starting = run ∷ []; running = run ∷ []; count = count })
  flying :
      (run count : ℕ)
      → IsSingle (record { in_flight = some run; starting = []; running = run ∷ []; count = count })

flying_settled :
    (current count run : ℕ)
    → IsSingle (
        run_settled
          (record {
            in_flight = some current;
            starting = [];
            running = current ∷ [];
            count = count;
          })
          run)
unfolding run_settled
flying_settled current count run = elim (Bool-cases (current == run)) [
  | inl e ↦ rw (e) (IsSingle.idle count)
  | inr e ↦ rw (e) (IsSingle.flying current count)
]

step-IsSingle :
    (t : TransitionInvoker) (event : FlightEvent)
    → IsSingle t
    → calls_alone t event ≡ true
    → IsSingle (flight_step t event)
unfolding invoke run_returned run_settled
step-IsSingle _ called (idle count) e = IsSingle.entering count (count + 1)
step-IsSingle _ returned (idle count) e = IsSingle.idle count
step-IsSingle _ (settled run) (idle count) e = IsSingle.idle count
step-IsSingle _ called (entering run count) e = absurd (ground (arith, e))
step-IsSingle _ returned (entering run count) e = IsSingle.flying run count
step-IsSingle _ (settled other) (entering run count) e = IsSingle.entering run count
step-IsSingle _ called (flying run count) e = IsSingle.flying run count
step-IsSingle _ returned (flying run count) e = IsSingle.flying run count
step-IsSingle _ (settled other) (flying run count) e = flying_settled run count other

flights-IsSingle :
    (t : TransitionInvoker) (events : List FlightEvent)
    → IsSingle t
    → no_reentry t events ≡ true
    → IsSingle (flights t events)
unfolding flights no_reentry
flights-IsSingle t [] h e = h
flights-IsSingle t (event ∷ events) h e =
    flights-IsSingle (flight_step t event) events (step-IsSingle t event h (ground (arith, e)))
      (ground (arith, e))

single_lem :
    (t : TransitionInvoker)
    → IsSingle t
    → (t.running ≡ t.starting ++ as_list t.in_flight)
      × (length t.running ≤ 1)
      × (has (invoke t).1 (invoke t).0.running ≡ true)
unfolding invoke has
single_lem _ (idle count) = (refl, omega arith, ground (arith, beq_refl count))
single_lem _ (entering run count) = (refl, omega arith, ground (arith, beq_refl count))
single_lem _ (flying run count) = (refl, omega arith, ground (arith, beq_refl run))

-- If no step calls the transition before it first waits, then however calls, their returns and the
-- ends of runs are ordered, at most one run has not settled, the one whose first step runs or the one
-- in flight, and a call gives a run that has not settled.
pub flights-single_flight :
    (events : List FlightEvent)
    → no_reentry create_transition events ≡ true
    → let t = flights create_transition events in
      (t.running ≡ t.starting ++ as_list t.in_flight)
      × (length t.running ≤ 1)
      × (has (invoke t).1 (invoke t).0.running ≡ true)
flights-single_flight events alone =
    single_lem (flights create_transition events)
      (flights-IsSingle create_transition events (IsSingle.idle 0) alone)
