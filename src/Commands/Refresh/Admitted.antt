-- ===== src/Commands/Refresh/Admitted.antt =====
-- The tasks that a refresh can join under packages/core/src/graph/system/refreshAdmission.ts.
use frond.Shared.{
  ℕ, ◌≡◌, refl, sym, ◌∙◌, Bool, true, false, some, List, [], ◌∷◌, nat_eq, string_eq, if_both,
  Option-cases, inl, inr, arith,
}
use frond.Shared.Maps.{get}
use frond.Types.Live.{NodeId}
use frond.Commands.Refresh.{
  RefreshTask, Registration, RefreshAdmission, make_refresh_admission_controller, cell_found,
  refresh_started, refresh_joined, admission_key, submit, start_returned, start_failed, clear,
  AdmissionEvent, submitted, node_cleared, returned, failed_to_start, done, ends, with_registration,
  admission_step,
}
use frond.Commands.Refresh.Open.{IsOpen, IsAdmitting}
use frond.Commands.Refresh.Steps.{
  submit-IsAdmitting, clear_node-IsAdmitting, start_returned-IsAdmitting, start_failed-IsAdmitting,
  clear-IsAdmitting,
}

with-IsAdmitting :
    (change : RefreshAdmission → ℕ → Registration → RefreshAdmission) (test : Registration → Bool)
    (s : RefreshAdmission) (n : ℕ)
    → ((r : Registration)
        → get n s.registrations ≡ some r
        → test r ≡ true
        → IsAdmitting (change s n r))
    → IsAdmitting s
    → IsAdmitting (with_registration change test s n)
with-IsAdmitting change test s n each h = elim (Option-cases (get n s.registrations)) [
  | inl e ↦ rw (e, with_registration) h
  | inr (r, e) ↦
      rw (e, with_registration)
        (if_both IsAdmitting (test r) _ _ (λ passes. each r e passes) (λ fails. h))
]

ends-registered : (r : Registration) → ends r ≡ true → r.registered ≡ false
ends-registered r e = ground (arith, e)

admission_step-IsAdmitting :
    (s : RefreshAdmission) (event : AdmissionEvent)
    → IsAdmitting s
    → IsAdmitting (admission_step s event)
unfolding admission_step
admission_step-IsAdmitting s (submitted lookup) h = submit-IsAdmitting s lookup h
admission_step-IsAdmitting s (node_cleared node_id) h = clear_node-IsAdmitting s node_id h
admission_step-IsAdmitting s (returned n) h =
    with-IsAdmitting start_returned ends s n (λ r found e. start_returned-IsAdmitting s n r found h)
      h
admission_step-IsAdmitting s (failed_to_start n) h =
    with-IsAdmitting start_failed ends s n
      (λ r found e. start_failed-IsAdmitting s n r found (ends-registered r e) h) h
admission_step-IsAdmitting s (done n) h =
    with-IsAdmitting clear (λ r. true) s n (λ r found e. clear-IsAdmitting s n r found h) h

unfoldable pub run : RefreshAdmission → List AdmissionEvent → RefreshAdmission
unfolding admission_step
run s [] = s
run s (event ∷ events) = run (admission_step s event) events

run-IsAdmitting :
    (s : RefreshAdmission) (events : List AdmissionEvent)
    → IsAdmitting s
    → IsAdmitting (run s events)
unfolding run
run-IsAdmitting s [] h = h
run-IsAdmitting s (event ∷ events) h =
    run-IsAdmitting (admission_step s event) events (admission_step-IsAdmitting s event h)

new-IsAdmitting : IsAdmitting make_refresh_admission_controller
unfolding get
new-IsAdmitting = record {
  below = λ n r e. absurd (ground (arith, e));
  active = λ k task e. absurd (ground (arith, e));
}

joined-active :
    (s : RefreshAdmission) (node_id : NodeId) (task : RefreshTask)
    → (submit s (cell_found node_id)).1 ≡ refresh_joined node_id task
    → get (admission_key node_id) s.active ≡ some task
unfolding submit
joined-active s node_id task e = elim (Option-cases (get (admission_key node_id) s.active)) [
  | inl f ↦
      let q : (submit s (cell_found node_id)).1 ≡ refresh_started node_id s.count =
        rw (f, submit) refl in
      absurd (ground (arith, sym q ∙ e))
  | inr (other, f) ↦
      let q : (submit s (cell_found node_id)).1 ≡ refresh_joined node_id other =
        rw (f, submit) refl in
      let same : refresh_joined node_id other ≡ refresh_joined node_id task = sym q ∙ e in f ∙ cc
]

-- A refresh that joins, at any point of any course of events, gets a task of a refresh of the same
-- node that has not completed and whose start has not failed: the admitted task while the start runs,
-- and the started one after it.
pub joined-IsOpen :
    (events : List AdmissionEvent) (node_id : NodeId) (task : RefreshTask)
    → (submit (run make_refresh_admission_controller events) (cell_found node_id)).1
      ≡ refresh_joined node_id task
    → IsOpen
        (run make_refresh_admission_controller events).registrations
        (admission_key node_id)
        task
joined-IsOpen events node_id task e =
    let s = run make_refresh_admission_controller events in
    (run-IsAdmitting make_refresh_admission_controller events new-IsAdmitting).active
      (admission_key node_id) task (joined-active s node_id task e)
