-- ===== src/Commands/Refresh.antt =====
-- makeRefreshAdmissionController of packages/core/src/graph/system/refreshAdmission.ts, with
-- registerAdmittedTask of admissionRegistration.ts. Starting a refresh is the caller's, and takes its
-- time: the end of a start, the completion of a refresh, which may come before that end, and the
-- calls of the controller are events. A registration has a number; its task is the admitted one, or
-- the one that its start returned, which no other start returned.
pub mod Open
pub mod Steps
pub mod Admitted
use Prim.Native.String.{◌++◌ as string_append}
use frond.Shared.{
  ℕ, ◌+◌, String, Bool, true, false, Option, none, some, List, [], ◌∷◌, if◌then◌else◌, ◌==◌, Eq,
  nat_eq, string_eq, ◌≡◌, ◌↔◌, refl, arith, ◌&&◌, ◌||◌,
}
use frond.Shared.Maps.{get, put, delete}
use frond.Types.Live.{NodeId}

pub data RefreshTask : Type 0 where
  admitted_task started_task : ℕ → RefreshTask

abbrev pub registration_of : RefreshTask → ℕ
registration_of (admitted_task n) = n
registration_of (started_task n) = n

-- `completed`, whether `registeredTask` is set, and whether the start failed.
pub record Registration : Type 0 where
  pub key : String
  pub completed : Bool
  pub registered : Bool
  pub failed : Bool

pub record RefreshAdmission : Type 0 where
  pub active : List (String × RefreshTask)
  pub registrations : List (ℕ × Registration)
  pub count : ℕ

abbrev pub make_refresh_admission_controller : RefreshAdmission
make_refresh_admission_controller = record { active = []; registrations = []; count = 0 }

pub data NodeCellLookup : Type 0 where
  cell_found cell_missing : NodeId → NodeCellLookup

pub data RefreshSubmission : Type 0 where
  refresh_started : NodeId → ℕ → RefreshSubmission
  refresh_joined : NodeId → RefreshTask → RefreshSubmission
  refresh_missing : NodeId → RefreshSubmission

-- `refresh:${nodeId}`.
abbrev pub admission_key : NodeId → String
admission_key node_id = string_append "refresh:" node_id

-- The registration that begins: the admitted task is set before start is called.
unfoldable pub register_admitted_task : RefreshAdmission → String → RefreshAdmission
unfolding put
register_admitted_task s key = record {
  active = put key (admitted_task s.count) s.active;
  registrations =
      put s.count (record { key = key; completed = false; registered = false; failed = false })
        s.registrations;
  count = s.count + 1;
}

unfoldable pub submit : RefreshAdmission → NodeCellLookup → RefreshAdmission × RefreshSubmission
unfolding get register_admitted_task
submit s (cell_missing node_id) = (s, refresh_missing node_id)
submit s (cell_found node_id) = elim (get (admission_key node_id) s.active) [
  | some task ↦ (s, refresh_joined node_id task)
  | none ↦ (register_admitted_task s (admission_key node_id), refresh_started node_id s.count)
]

unfoldable pub clear_node : RefreshAdmission → NodeId → RefreshAdmission
unfolding delete
clear_node s node_id = record s { active = delete (admission_key node_id) s.active }

-- `current === admittedTask`, and `current === registeredTask` once that is set.
abbrev pub is_admitted : ℕ → Option RefreshTask → Bool
is_admitted n (some (admitted_task m)) = m == n
is_admitted n _ = false

abbrev pub is_registered : ℕ → Registration → Option RefreshTask → Bool
is_registered n r (some (started_task m)) = r.registered && m == n
is_registered n r _ = false

-- The start of a registration returned its task.
unfoldable pub start_returned : RefreshAdmission → ℕ → Registration → RefreshAdmission
unfolding put
start_returned s n r =
    let registrations = put n (record r { registered = true }) s.registrations in
    if r.completed
    then record s { registrations = registrations }
    else record s { active = put r.key (started_task n) s.active; registrations = registrations }

unfoldable pub start_failed : RefreshAdmission → ℕ → Registration → RefreshAdmission
unfolding get put delete
start_failed s n r =
    let registrations = put n (record r { failed = true }) s.registrations in
    if is_admitted n (get r.key s.active)
    then record s { active = delete r.key s.active; registrations = registrations }
    else record s { registrations = registrations }

-- The callback of the refresh.
unfoldable pub clear : RefreshAdmission → ℕ → Registration → RefreshAdmission
unfolding get put delete
clear s n r =
    let registrations = put n (record r { completed = true }) s.registrations in
    let current = get r.key s.active in
    if is_admitted n current || is_registered n r current
    then record s { active = delete r.key s.active; registrations = registrations }
    else record s { registrations = registrations }

pub data AdmissionEvent : Type 0 where
  submitted : NodeCellLookup → AdmissionEvent
  node_cleared : NodeId → AdmissionEvent
  returned failed_to_start done : ℕ → AdmissionEvent

-- A start ends once, and only if it has begun.
abbrev pub ends : Registration → Bool
ends r = if r.registered then false else if r.failed then false else true

abbrev pub with_registration :
    (RefreshAdmission → ℕ → Registration → RefreshAdmission)
    → (Registration → Bool)
    → RefreshAdmission
    → ℕ
    → RefreshAdmission
with_registration change test s n = elim (get n s.registrations) [
  | none ↦ s
  | some r ↦ if test r then change s n r else s
]

unfoldable pub admission_step : RefreshAdmission → AdmissionEvent → RefreshAdmission
unfolding submit clear_node start_returned start_failed clear
admission_step s (submitted lookup) = (submit s lookup).0
admission_step s (node_cleared node_id) = clear_node s node_id
admission_step s (returned n) = with_registration start_returned ends s n
admission_step s (failed_to_start n) = with_registration start_failed ends s n
admission_step s (done n) = with_registration clear (λ r. true) s n
