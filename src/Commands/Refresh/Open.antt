-- ===== src/Commands/Refresh/Open.antt =====
-- The tasks that stand for a refresh under packages/core/src/graph/system/refreshAdmission.ts.
use frond.Shared.{
  ℕ, ◌<◌, ◌≤◌, ◌≡◌, ◌⊎◌, refl, sym, ap, ◌∙◌, String, true, false, some, List, ◌==◌, beq_refl,
  nat_eq, string_eq, Bool-cases, inl, inr, arith,
}
use frond.Shared.Maps.{get, put, delete, get-put, get-delete}
use frond.Commands.Refresh.{
  RefreshTask, admitted_task, started_task, registration_of, Registration, RefreshAdmission,
}

-- The task stands for its registration: the admitted one until the start returns or fails, and the
-- one that the start returned from then on.
abbrev pub Stands : RefreshTask → Registration → Type 0
Stands (admitted_task n) r = (r.registered ≡ false) × (r.failed ≡ false)
Stands (started_task n) r = r.registered ≡ true

-- A registration under the key, whose refresh has not completed and whose start has not failed.
pub record IsOpen (registrations : List (ℕ × Registration)) (key : String) (task : RefreshTask)
    : Type 0 where
  pub registration : Registration
  pub found : get (registration_of task) registrations ≡ some registration
  pub same_key : registration.key ≡ key
  pub awaited : registration.completed ≡ false
  pub stands : Stands task registration

-- Every registration has a number below the count, and every active task is open.
pub record IsAdmitting (s : RefreshAdmission) : Type 0 where
  pub below : (n : ℕ) (r : Registration) → get n s.registrations ≡ some r → n < s.count
  pub active :
      (key : String) (task : RefreshTask)
      → get key s.active ≡ some task
      → IsOpen s.registrations key task

some-injective : {A : Type 0} {a b : A} → some a ≡ some b → a ≡ b
some-injective h = cc

-- A change of another registration leaves a task open.
pub IsOpen-other :
    (registrations : List (ℕ × Registration)) (n : ℕ) (r : Registration) (key : String)
    (task : RefreshTask)
    → (n == registration_of task) ≡ false
    → IsOpen registrations key task
    → IsOpen (put n r registrations) key task
IsOpen-other registrations n r key task other h = record {
  registration = h.registration;
  found = get-put n (registration_of task) r registrations ∙ rw (other) h.found;
  same_key = h.same_key;
  awaited = h.awaited;
  stands = h.stands;
}

-- Numbers stay below the count.
abbrev IsBelow : List (ℕ × Registration) → ℕ → Type 0
IsBelow registrations count = (n : ℕ) (r : Registration) → get n registrations ≡ some r → n < count

pub put-IsBelow :
    (m count next : ℕ) (v : Registration) (registrations : List (ℕ × Registration))
    → IsBelow registrations count
    → m < next
    → count ≤ next
    → IsBelow (put m v registrations) next
put-IsBelow m count next v registrations h lt le n r found = elim (Bool-cases (m == n)) [
  | inl e ↦ ground (arith, e, lt)
  | inr e ↦
      let kept : get n registrations ≡ some r =
        sym (get-put m n v registrations ∙ rw (e) refl) ∙ found in
      omega (arith, h n r kept, le)
]

-- What is found after a key is set, or deleted.
pub get-put-cases :
    (k key : String) (v task : RefreshTask) (m : List (String × RefreshTask))
    → get key (put k v m) ≡ some task
    → ((k ≡ key) × (v ≡ task)) ⊎ (((k == key) ≡ false) × (get key m ≡ some task))
get-put-cases k key v task m h = elim (Bool-cases (k == key)) [
  | inl e ↦
      inl
        ((string_eq.beq_iff k key).0 e, some-injective (sym (get-put k key v m ∙ rw (e) refl) ∙ h))
  | inr e ↦ inr (e, sym (get-put k key v m ∙ rw (e) refl) ∙ h)
]

pub get-delete-cases :
    (k key : String) (task : RefreshTask) (m : List (String × RefreshTask))
    → get key (delete k m) ≡ some task
    → ((k == key) ≡ false) × (get key m ≡ some task)
get-delete-cases k key task m h = elim (Bool-cases (k == key)) [
  | inl e ↦ absurd (ground (arith, get-delete k key m, e, h))
  | inr e ↦ (e, sym (get-delete k key m ∙ rw (e) refl) ∙ h)
]

pub put-IsOpen :
    (registrations : List (ℕ × Registration)) (n : ℕ) (r : Registration) (key : String)
    (task : RefreshTask)
    → registration_of task ≡ n
    → r.key ≡ key
    → r.completed ≡ false
    → Stands task r
    → IsOpen (put n r registrations) key task
put-IsOpen registrations n r key task is_n same_key awaited stands = record {
  registration = r;
  found =
      ap (λ m. get m (put n r registrations)) is_n
      ∙ get-put n n r registrations
      ∙ rw (beq_refl n) refl;
  same_key = same_key;
  awaited = awaited;
  stands = stands;
}

-- The registration of an open task, where it is known.
pub known :
    (registrations : List (ℕ × Registration)) (n : ℕ) (r : Registration) (key : String)
    (task : RefreshTask)
    → get n registrations ≡ some r
    → (n == registration_of task) ≡ true
    → (p : IsOpen registrations key task) → p.registration ≡ r
known registrations n r key task found e p = some-injective (
    sym p.found
    ∙ ap (λ m. get m registrations) (sym ((nat_eq.beq_iff n (registration_of task)).0 e))
    ∙ found)

-- A task under another key than the registration's.
pub elsewhere :
    (registrations : List (ℕ × Registration)) (n : ℕ) (r changed : Registration) (key : String)
    (task : RefreshTask)
    → get n registrations ≡ some r
    → (r.key == key) ≡ false
    → IsOpen registrations key task
    → IsOpen (put n changed registrations) key task
elsewhere registrations n r changed key task found other_key p =
    elim (Bool-cases (n == registration_of task)) [
      | inr other ↦ IsOpen-other registrations n changed key task other p
      | inl e ↦
          let same = known registrations n r key task found e p in
          absurd (
            ground (
              arith,
              other_key,
              string_eq.beq_iff r.key key,
              sym (ap (λ q. q.key) same) ∙ p.same_key,
            ))
    ]
