-- ===== src/Commands/Refresh/Steps.antt =====
-- What each operation of packages/core/src/graph/system/refreshAdmission.ts does to them.
use mathlib.Core.Path.{subst}
use frond.Shared.{
  ℕ, ◌+◌, ◌≡◌, refl, sym, ap, ◌∙◌, String, true, false, Option, some, ◌==◌, beq_sym, nat_eq,
  string_eq, if_both, Bool-cases, Option-cases, inl, inr, arith, ◌||◌,
}
use frond.Shared.Maps.{get, put, delete}
use frond.Types.Live.{NodeId}
use frond.Commands.Refresh.{
  RefreshTask, admitted_task, started_task, registration_of, Registration, RefreshAdmission,
  NodeCellLookup, cell_found, cell_missing, admission_key, register_admitted_task, submit,
  clear_node, is_admitted, is_registered, start_returned, start_failed, clear,
}
use frond.Commands.Refresh.Open.{
  Stands, IsAdmitting, IsOpen-other, put-IsBelow, get-put-cases, get-delete-cases, put-IsOpen,
  known, elsewhere,
}

register-IsAdmitting :
    (s : RefreshAdmission) (key : String)
    → IsAdmitting s
    → IsAdmitting (register_admitted_task s key)
unfolding register_admitted_task
register-IsAdmitting s key h = record {
  below =
      put-IsBelow s.count s.count (s.count + 1) _ s.registrations h.below (omega arith)
        (omega arith);
  active = λ k task e. elim (get-put-cases key k (admitted_task s.count) task s.active e) [
    | inl (same, is) ↦
        put-IsOpen s.registrations s.count _ k task (sym (ap registration_of is)) same refl (
          subst
            (λ t.
              Stands t
                (record { key = key; completed = false; registered = false; failed = false }))
            is (refl, refl))
    | inr (other_key, old) ↦
        let p = h.active k task old in
        IsOpen-other s.registrations s.count _ k task
          (ground (arith, h.below (registration_of task) p.registration p.found)) p
  ];
}

pub submit-IsAdmitting :
    (s : RefreshAdmission) (lookup : NodeCellLookup)
    → IsAdmitting s
    → IsAdmitting (submit s lookup).0
unfolding submit
submit-IsAdmitting s (cell_missing node_id) h = h
submit-IsAdmitting s (cell_found node_id) h =
    elim (Option-cases (get (admission_key node_id) s.active)) [
      | inl e ↦ rw (e, submit) (register-IsAdmitting s (admission_key node_id) h)
      | inr (task, e) ↦ rw (e, submit) h
    ]

pub clear_node-IsAdmitting :
    (s : RefreshAdmission) (node_id : NodeId) → IsAdmitting s → IsAdmitting (clear_node s node_id)
unfolding clear_node
clear_node-IsAdmitting s node_id h = record {
  below = h.below;
  active =
      λ k task e. h.active k task (get-delete-cases (admission_key node_id) k task s.active e).1;
}

-- A change of a registration that drops its tasks, where they were active.
drop-IsAdmitting :
    (s : RefreshAdmission) (n : ℕ) (r changed : Registration)
    → get n s.registrations ≡ some r
    → IsAdmitting s
    → IsAdmitting
        (record s { active = delete r.key s.active; registrations = put n changed s.registrations })
drop-IsAdmitting s n r changed found h = record {
  below =
      put-IsBelow n s.count s.count changed s.registrations h.below (h.below n r found)
        (omega arith);
  active = λ k task e.
      let (other_key, old) = get-delete-cases r.key k task s.active e in
      elsewhere s.registrations n r changed k task found other_key (h.active k task old);
}

-- A change of a registration of which no task is active.
leave-IsAdmitting :
    (s : RefreshAdmission) (n : ℕ) (r changed : Registration)
    → get n s.registrations ≡ some r
    → ((task : RefreshTask)
        → get r.key s.active ≡ some task
        → Stands task r
        → r.completed ≡ false
        → (n == registration_of task) ≡ false)
    → IsAdmitting s
    → IsAdmitting (record s { registrations = put n changed s.registrations })
leave-IsAdmitting s n r changed found none_active h = record {
  below =
      put-IsBelow n s.count s.count changed s.registrations h.below (h.below n r found)
        (omega arith);
  active = λ k task e.
      let p = h.active k task e in
      elim (Bool-cases (n == registration_of task)) [
        | inr other ↦ IsOpen-other s.registrations n changed k task other p
        | inl e' ↦
            let same = known s.registrations n r k task found e' p in
            let at_key : get r.key s.active ≡ some task =
              ap (λ j. get j s.active) (ap (λ q. q.key) (sym same) ∙ p.same_key) ∙ e in
            let stands = subst (Stands task) same p.stands in
            let awaited = subst (λ q. q.completed ≡ false) same p.awaited in
            absurd (ground (arith, e', none_active task at_key stands awaited))
      ];
}

pub start_returned-IsAdmitting :
    (s : RefreshAdmission) (n : ℕ) (r : Registration)
    → get n s.registrations ≡ some r
    → IsAdmitting s
    → IsAdmitting (start_returned s n r)
unfolding start_returned
start_returned-IsAdmitting s n r found h =
    let changed : Registration = record r { registered = true } in
    if_both IsAdmitting r.completed _ _
      (λ late.
        leave-IsAdmitting s n r changed found
          (λ task e stands awaited. absurd (ground (arith, late, awaited))) h)
      (λ awaited. record {
        below =
            put-IsBelow n s.count s.count changed s.registrations h.below (h.below n r found)
              (omega arith);
        active = λ k task e. elim (get-put-cases r.key k (started_task n) task s.active e) [
          | inl (same, is) ↦
              put-IsOpen s.registrations n changed k task (sym (ap registration_of is)) same awaited
                (subst (λ t. Stands t changed) is refl)
          | inr (other_key, old) ↦
              let p = h.active k task old in
              elsewhere s.registrations n r changed k task found other_key p
        ];
      })

-- No task of a registration is active if the tests of its callbacks fail.
unadmitted :
    (n : ℕ) (r : Registration) (current : Option RefreshTask) (task : RefreshTask)
    → r.registered ≡ false
    → is_admitted n current ≡ false
    → current ≡ some task
    → Stands task r
    → (n == registration_of task) ≡ false
unadmitted n r current (admitted_task m) unregistered e is stands =
    beq_sym n m ∙ subst (λ c. is_admitted n c ≡ false) is e
unadmitted n r current (started_task m) unregistered e is stands =
    absurd (ground (arith, unregistered, stands))

unregistered :
    (n : ℕ) (r : Registration) (current : Option RefreshTask) (task : RefreshTask)
    → (is_admitted n current || is_registered n r current) ≡ false
    → current ≡ some task
    → Stands task r
    → (n == registration_of task) ≡ false
unregistered n r current (admitted_task m) e is stands =
    let test = subst (λ c. (is_admitted n c || is_registered n r c) ≡ false) is e in
    beq_sym n m ∙ ground (arith, test)
unregistered n r current (started_task m) e is stands =
    let test = subst (λ c. (is_admitted n c || is_registered n r c) ≡ false) is e in
    beq_sym n m ∙ ground (arith, test, stands)

pub start_failed-IsAdmitting :
    (s : RefreshAdmission) (n : ℕ) (r : Registration)
    → get n s.registrations ≡ some r
    → r.registered ≡ false
    → IsAdmitting s
    → IsAdmitting (start_failed s n r)
unfolding start_failed
start_failed-IsAdmitting s n r found no_task h =
    let changed : Registration = record r { failed = true } in
    if_both IsAdmitting (is_admitted n (get r.key s.active)) _ _
      (λ e. drop-IsAdmitting s n r changed found h)
      (λ e.
        leave-IsAdmitting s n r changed found
          (λ task is stands awaited. unadmitted n r _ task no_task e is stands) h)

pub clear-IsAdmitting :
    (s : RefreshAdmission) (n : ℕ) (r : Registration)
    → get n s.registrations ≡ some r
    → IsAdmitting s
    → IsAdmitting (clear s n r)
unfolding clear
clear-IsAdmitting s n r found h =
    let changed : Registration = record r { completed = true } in
    let current = get r.key s.active in
    if_both IsAdmitting (is_admitted n current || is_registered n r current) _ _
      (λ e. drop-IsAdmitting s n r changed found h)
      (λ e.
        leave-IsAdmitting s n r changed found
          (λ task is stands awaited. unregistered n r current task e is stands) h)
