-- ===== src/Validity/Commit.antt =====
-- commitResultState, commitDriverOperationResult and validateResultValidity of
-- packages/core/src/graph/resultValidity/index.ts: what a driver returned becomes a result with a
-- checked load time and validity. What throws returns `err`.
pub mod Checked
use frond.Shared.{
  ◌≡◌, refl, ◌≢◌, Bool, true, false, not, ◌&&◌, ◌||◌, Option, none, some, arith, String,
  if◌then◌else◌, Option-cases, ◌==◌, string_eq,
}
use frond.Shared.Int.{ℤ, pos, leb_ℤ, ◌≤ℤ◌}
use frond.Types.Value.{
  Value, Number, undefined, null, number, text, whole, is_nullish, is_undefined,
}
use frond.Types.Validity.{
  ResultValidity, stale, expired, NormalizedResultValidityPolicy, TaggedValidity, ValidityInput,
  tagged, absent, untagged, ResultCommit, Returned, bare, commit,
}
use frond.Validity.Result.{
  Result, ok, err, violation, ◌>>=◌, Context, Field, current_at, stale_at, expired_at,
  validity_at_finite_nonnegative, loaded_at_finite_nonnegative, validity_tag_known,
}
use frond.Validity.Effective.{effective_result_validity}

pub data CommitKind : Type 0 where
  default explicit : CommitKind

pub record ResultState : Type 0 where
  pub result : Value
  pub result_validity : ResultValidity
  pub result_loaded_at : Option ℤ
  pub result_validity_commit : CommitKind

pub data ResultCommitDefaultValidity : Type 0 where
  current preserve : ResultCommitDefaultValidity

pub record ResultCommitOptions : Type 0 where
  pub context : Context
  pub default_loaded_at : Option ℤ
  pub default_validity : Option ResultCommitDefaultValidity

-- `typeof value === "number" && Number.isFinite(value) && value >= 0`.
nonnegative_number : Value → Option ℤ
nonnegative_number (number (whole z)) = if leb_ℤ (pos 0) z then some z else none
nonnegative_number _ = none

validate_loaded_at : Value → Context → Result ℤ
unfolding nonnegative_number
validate_loaded_at value context = elim (nonnegative_number value) [
  | none ↦ violation context loaded_at_finite_nonnegative
  | some z ↦ ok z
]

validate_validity_at : Value → Field → Context → Result ℤ
unfolding nonnegative_number
validate_validity_at value field context = elim (nonnegative_number value) [
  | none ↦ violation context (validity_at_finite_nonnegative field)
  | some z ↦ ok z
]

-- `tagged.currentAt === undefined ? undefined : validateValidityAt(…)`.
validate_current_at : Value → Context → Result (Option ℤ)
unfolding validate_validity_at
validate_current_at undefined context = ok none
validate_current_at value context = do
  at ← validate_validity_at value current_at context
  ok (some at)

validate_tag : String → TaggedValidity → Context → Result ResultValidity
unfolding validate_current_at
validate_tag tag v context =
    if tag == "Current"
    then (do at ← validate_current_at v.current_at context; ok (ResultValidity.current at))
    else if tag == "Stale"
    then (do at ← validate_validity_at v.stale_at stale_at context; ok (stale at))
    else if tag == "Expired"
    then (do at ← validate_validity_at v.expired_at expired_at context; ok (expired at))
    else violation context validity_tag_known

validate_tagged : Value → TaggedValidity → Context → Result ResultValidity
unfolding validate_tag
validate_tagged (text tag) v context = validate_tag tag v context
validate_tagged _ v context = violation context validity_tag_known

pub validate_result_validity : ValidityInput → Context → Result ResultValidity
unfolding validate_tagged
validate_result_validity (tagged v) context = validate_tagged v.tag v context
validate_result_validity _ context = violation context validity_tag_known

abbrev current_result_validity : Option ℤ → ResultValidity
current_result_validity at = ResultValidity.current at

-- `left ?? right`.
abbrev or_else {ℓ} : {A : Type ℓ} → Option A → A → A
or_else none right = right
or_else (some left) right = left

abbrev previous_loaded_at : Option ResultState → ℤ → ℤ
previous_loaded_at none at = at
previous_loaded_at (some p) at = or_else p.result_loaded_at at

abbrev previous_validity : Option ResultState → ResultValidity → ResultValidity
previous_validity none v = v
previous_validity (some p) v = p.result_validity

abbrev previous_commit : Option ResultState → CommitKind
previous_commit none = default
previous_commit (some p) = p.result_validity_commit

-- `next.validity !== undefined`: null counts as metadata, though `??` passes over it.
has_validity : ValidityInput → Bool
has_validity absent = false
has_validity _ = true

-- `next.loadedAt ?? previous?.resultLoadedAt ?? defaultLoadedAt`.
commit_loaded_at : Value → Option ResultState → ℤ → Value
commit_loaded_at value previous at =
    if is_nullish value then number (whole (previous_loaded_at previous at)) else value

-- `validateResultValidity(next.validity ?? currentResultValidity(loadedAt), context)`.
commit_validity : ValidityInput → ℤ → Context → Result ResultValidity
unfolding validate_result_validity
commit_validity absent at context = ok (current_result_validity (some at))
commit_validity ValidityInput.null at context = ok (current_result_validity (some at))
commit_validity input at context = validate_result_validity input context

commit_explicit :
    ResultCommit
    → Option ResultState
    → NormalizedResultValidityPolicy
    → ℤ
    → ℤ
    → Context
    → Result ResultState
unfolding has_validity commit_loaded_at commit_validity validate_loaded_at effective_result_validity
commit_explicit next previous policy now default_loaded_at context = do
  loaded_at ←
      validate_loaded_at (commit_loaded_at next.loaded_at previous default_loaded_at) context
  validity ← commit_validity next.validity loaded_at context
  ok (record {
    result = next.result;
    result_loaded_at = some loaded_at;
    result_validity = effective_result_validity validity policy (some loaded_at) now;
    result_validity_commit =
        if has_validity next.validity || not (is_undefined next.loaded_at)
        then explicit
        else default;
  })

commit_bare :
    Value
    → Option ResultState
    → NormalizedResultValidityPolicy
    → ℤ
    → ℤ
    → ResultCommitDefaultValidity
    → Context
    → Result ResultState
unfolding validate_loaded_at effective_result_validity
commit_bare next previous policy now default_loaded_at ResultCommitDefaultValidity.preserve
      context =
    let at = previous_loaded_at previous default_loaded_at in
    validate_loaded_at (number (whole at)) context >>= λ loaded_at. ok (record {
      result = next;
      result_loaded_at = some loaded_at;
      result_validity =
          effective_result_validity (previous_validity previous (current_result_validity (some at)))
            policy (some at) now;
      result_validity_commit = previous_commit previous;
    })
commit_bare next previous policy now default_loaded_at ResultCommitDefaultValidity.current context =
    validate_loaded_at (number (whole default_loaded_at)) context >>= λ loaded_at. ok (record {
      result = next;
      result_loaded_at = some loaded_at;
      result_validity =
          effective_result_validity (current_result_validity (some default_loaded_at)) policy
            (some default_loaded_at) now;
      result_validity_commit = default;
    })

unfoldable pub commit_result_state :
    Returned
    → Option ResultState
    → NormalizedResultValidityPolicy
    → ℤ
    → ResultCommitOptions
    → Result ResultState
unfolding commit_explicit commit_bare
commit_result_state (commit next) previous policy now options =
    commit_explicit next previous policy now (or_else options.default_loaded_at now) options.context
commit_result_state (bare next) previous policy now options =
    commit_bare next previous policy now (or_else options.default_loaded_at now)
      (or_else options.default_validity ResultCommitDefaultValidity.current) options.context

abbrev is_undefined_return : Returned → Bool
is_undefined_return (bare value) = is_undefined value
is_undefined_return (commit _) = false

-- A staged explicit validity outlives what the driver then returns.
abbrev keep_explicit : ResultState → ResultState → ResultState
keep_explicit staged returned = elim staged.result_validity_commit [
  | explicit ↦ record returned {
    result_validity = staged.result_validity;
    result_validity_commit = explicit;
  }
  | default ↦ returned
]

unfoldable pub commit_driver_operation_result :
    Returned
    → ResultState
    → NormalizedResultValidityPolicy
    → ℤ
    → ResultCommitOptions
    → Result ResultState
commit_driver_operation_result returned staged policy now options =
    if is_undefined_return returned then ok staged else do
      state ← commit_result_state returned (some staged) policy now options
      ok (keep_explicit staged state)
