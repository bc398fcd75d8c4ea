-- ===== src/Validity/Commit/Checked.antt =====
-- The times and the validity of what packages/core/src/graph/resultValidity/index.ts commits.
use frond.Shared.{String, ◌≡◌, ◌==◌, string_eq, refl, Option, none, some, arith}
use frond.Shared.Int.{ℤ, pos, ◌≤ℤ◌}
use frond.Types.Value.{Value, undefined, number, text, whole}
use frond.Types.Validity.{
  ResultValidity, current, stale, expired, NormalizedResultValidityPolicy, ValidityInput, tagged,
  absent, untagged, ResultCommit, Returned, bare, commit, TaggedValidity,
}
use frond.Validity.Result.{
  ok, Context, Field, current_at, stale_at, expired_at, Ensures, Ensures-bind, Ensures-if,
  Ensures-ok, Ensures-err,
}
use frond.Validity.Policy.{IsNormalized}
use frond.Validity.Effective.{effective_result_validity}
use frond.Validity.Commit.{
  ResultState, CommitKind, default, ResultCommitOptions, ResultCommitDefaultValidity, explicit,
  validate_loaded_at, validate_validity_at, validate_current_at, previous_validity,
  previous_loaded_at, or_else, validate_result_validity, validate_tagged, validate_tag,
  commit_validity, commit_explicit, commit_bare, commit_result_state,
  commit_driver_operation_result, keep_explicit, is_undefined_return, commit_loaded_at,
}

-- The time of a validity, where it has one, is not negative.
abbrev pub IsChecked : ResultValidity → Type 0
IsChecked (current none) = Unit
IsChecked (current (some at)) = pos 0 ≤ℤ at
IsChecked (stale at) = pos 0 ≤ℤ at
IsChecked (expired at) = pos 0 ≤ℤ at

abbrev AtChecked : Option ℤ → Type 0
AtChecked none = Unit
AtChecked (some at) = pos 0 ≤ℤ at

pub record IsValid (s : ResultState) : Type 0 where
  pub loaded : AtChecked s.result_loaded_at
  pub checked : IsChecked s.result_validity

abbrev pub PreviousValid : Option ResultState → Type 0
PreviousValid none = Unit
PreviousValid (some p) = IsValid p

effective-IsChecked :
    (v : ResultValidity) (p : NormalizedResultValidityPolicy) (at now : ℤ)
    → IsNormalized p
    → pos 0 ≤ℤ at
    → IsChecked v
    → IsChecked (effective_result_validity v p (some at) now)
unfolding effective_result_validity
effective-IsChecked (current c) (NormalizedResultValidityPolicy.time_bound none none) at now n a h =
    ground arith
effective-IsChecked (current c) (NormalizedResultValidityPolicy.time_bound none (some e)) at now n a
      h =
    ground arith
effective-IsChecked (current c) (NormalizedResultValidityPolicy.time_bound (some s) none) at now n a
      h =
    ground arith
effective-IsChecked (current c) (NormalizedResultValidityPolicy.time_bound (some s) (some e)) at now
      n a h =
    ground arith
effective-IsChecked (stale c) _ at now n a h = ground arith
effective-IsChecked _ _ at now n a h = ground arith

Nonnegative : ℤ → Type 0
Nonnegative at = pos 0 ≤ℤ at

-- Each check, with what it ensures of the value that passes.
validate_loaded_at_lem : (v : Value) (c : Context) → Ensures Nonnegative (validate_loaded_at v c)
unfolding validate_loaded_at Nonnegative
validate_loaded_at_lem (number (whole z)) c = record { holds = λ a h. ground arith }
validate_loaded_at_lem _ c = Ensures-err _

validate_validity_at_lem :
    (v : Value) (f : Field) (c : Context) → Ensures Nonnegative (validate_validity_at v f c)
unfolding validate_validity_at Nonnegative
validate_validity_at_lem (number (whole z)) f c = record { holds = λ a h. ground arith }
validate_validity_at_lem _ f c = Ensures-err _

validate_current_at_lem : (v : Value) (c : Context) → Ensures AtChecked (validate_current_at v c)
unfolding validate_current_at Nonnegative
validate_current_at_lem undefined c = Ensures-ok none tt
validate_current_at_lem v c =
    Ensures-bind (validate_validity_at v current_at c) _ (validate_validity_at_lem v current_at c)
      λ a h. Ensures-ok (some a) h

current-IsChecked : (a : Option ℤ) → AtChecked a → IsChecked (current a)
current-IsChecked none h = tt
current-IsChecked (some a) h = h

validate_tag_lem :
    (t : String) (v : TaggedValidity) (c : Context) → Ensures IsChecked (validate_tag t v c)
unfolding validate_tag Nonnegative
validate_tag_lem t v c =
    Ensures-if (t == "Current") _ _
      (Ensures-bind _ _ (validate_current_at_lem v.current_at c)
        λ a h. Ensures-ok (current a) (current-IsChecked a h))
      (Ensures-if (t == "Stale") _ _
        (Ensures-bind _ _ (validate_validity_at_lem v.stale_at stale_at c)
          λ a h. Ensures-ok (stale a) h)
        (Ensures-if (t == "Expired") _ _
          (Ensures-bind _ _ (validate_validity_at_lem v.expired_at expired_at c)
            λ a h. Ensures-ok (expired a) h)
          (Ensures-err _)))

validate_tagged_lem :
    (t : Value) (v : TaggedValidity) (c : Context) → Ensures IsChecked (validate_tagged t v c)
unfolding validate_tagged
validate_tagged_lem (text t) v c = validate_tag_lem t v c
validate_tagged_lem _ v c = Ensures-err _

validate_result_validity_lem :
    (input : ValidityInput) (c : Context) → Ensures IsChecked (validate_result_validity input c)
unfolding validate_result_validity
validate_result_validity_lem (tagged v) c = validate_tagged_lem v.tag v c
validate_result_validity_lem _ c = Ensures-err _

commit_validity_lem :
    (input : ValidityInput) (at : ℤ) (c : Context)
    → Nonnegative at
    → Ensures IsChecked (commit_validity input at c)
unfolding commit_validity Nonnegative
commit_validity_lem absent at c h = Ensures-ok (current (some at)) h
commit_validity_lem ValidityInput.null at c h = Ensures-ok (current (some at)) h
commit_validity_lem untagged at c h = validate_result_validity_lem untagged c
commit_validity_lem (tagged v) at c h = validate_result_validity_lem (tagged v) c

commit_explicit_lem :
    (next : ResultCommit) (previous : Option ResultState) (p : NormalizedResultValidityPolicy)
    (now at : ℤ) (c : Context)
    → IsNormalized p
    → Ensures IsValid (commit_explicit next previous p now at c)
unfolding commit_explicit Nonnegative
commit_explicit_lem next previous p now at c n =
    Ensures-bind _ _ (validate_loaded_at_lem (commit_loaded_at next.loaded_at previous at) c) λ a h.
      Ensures-bind _ _ (commit_validity_lem next.validity a c h)
        λ v k. Ensures-ok _ (record { loaded = h; checked = effective-IsChecked v p a now n h k })

previous_validity-IsChecked :
    (previous : Option ResultState) (v : ResultValidity)
    → PreviousValid previous
    → IsChecked v
    → IsChecked (previous_validity previous v)
previous_validity-IsChecked none v h k = k
previous_validity-IsChecked (some p) v h k = h.checked

-- A load time that passes the check is the one that was checked.
validate_at_lem :
    (z : ℤ) (c : Context)
    → Ensures (λ a. Nonnegative a × Nonnegative z) (validate_loaded_at (number (whole z)) c)
unfolding validate_loaded_at Nonnegative
validate_at_lem z c = record { holds = λ a h. ground arith }

commit_bare_lem :
    (next : Value) (previous : Option ResultState) (p : NormalizedResultValidityPolicy) (now at : ℤ)
    (d : ResultCommitDefaultValidity) (c : Context)
    → IsNormalized p
    → PreviousValid previous
    → Ensures IsValid (commit_bare next previous p now at d c)
unfolding commit_bare Nonnegative
commit_bare_lem next previous p now at ResultCommitDefaultValidity.preserve c n v =
    Ensures-bind _ _ (validate_at_lem (previous_loaded_at previous at) c) λ a h.
      Ensures-ok _ (record {
        loaded = h.0;
        checked =
            effective-IsChecked _ p _ now n h.1 (previous_validity-IsChecked previous _ v h.1);
      })
commit_bare_lem next previous p now at ResultCommitDefaultValidity.current c n v =
    Ensures-bind _ _ (validate_at_lem at c) λ a h. Ensures-ok _ (record {
      loaded = h.0;
      checked = effective-IsChecked (current (some at)) p at now n h.1 h.1;
    })

-- A result that is committed under a normalized policy, over a valid result or none, is valid: its
-- load time and the time of its validity are not negative.
pub commit_result_state-IsValid :
    (returned : Returned) (previous : Option ResultState) (p : NormalizedResultValidityPolicy)
    (now : ℤ) (options : ResultCommitOptions) {r : ResultState}
    → IsNormalized p
    → PreviousValid previous
    → commit_result_state returned previous p now options ≡ ok r
    → IsValid r
unfolding commit_result_state
commit_result_state-IsValid (commit next) previous p now options {r} n v h =
    (commit_explicit_lem next previous p now _ options.context n).holds r h
commit_result_state-IsValid (bare next) previous p now options {r} n v h =
    (commit_bare_lem next previous p now (or_else options.default_loaded_at now)
        (or_else options.default_validity ResultCommitDefaultValidity.current) options.context n
        v).holds
      r h

keep_explicit-IsValid :
    (staged returned : ResultState) (kind : CommitKind)
    → staged.result_validity_commit ≡ kind
    → IsValid staged
    → IsValid returned
    → IsValid (keep_explicit staged returned)
keep_explicit-IsValid staged returned explicit e v k =
    rw e (record { loaded = k.loaded; checked = v.checked })
keep_explicit-IsValid staged returned default e v k = rw e k

-- A driver operation keeps a valid result valid: under a normalized policy, from a valid staged
-- result, whatever the driver returns, what is committed is valid.
pub commit_driver_operation_result-IsValid :
    (returned : Returned) (staged : ResultState) (p : NormalizedResultValidityPolicy) (now : ℤ)
    (options : ResultCommitOptions) {r : ResultState}
    → IsNormalized p
    → IsValid staged
    → commit_driver_operation_result returned staged p now options ≡ ok r
    → IsValid r
unfolding commit_driver_operation_result
commit_driver_operation_result-IsValid returned staged p now options {r} n v h = driver.holds r h
  where
    driver : Ensures IsValid (commit_driver_operation_result returned staged p now options)
    driver = Ensures-if (is_undefined_return returned) _ _ (Ensures-ok staged v) (
        Ensures-bind (commit_result_state returned (some staged) p now options) _
          (record {
            holds = λ a k. commit_result_state-IsValid returned (some staged) p now options n v k;
          })
          λ a k.
            Ensures-ok _ (keep_explicit-IsValid staged a staged.result_validity_commit refl v k))
