-- ===== src/Scenarios/Results.antt =====
-- Policies and commits of results.
use frond.Shared.{ℕ, ◌≤◌, ◌≡◌, ◌↔◌, false, refl, Option, none, some, arith}
use frond.Shared.Int.{pos}
use frond.Types.Value.{Number, text, whole}
use frond.Types.Validity.{
  current, stale, ResultValidityPolicy, NormalizedResultValidityPolicy, Returned,
}
use frond.Validity.Result.{Context}
use frond.Validity.Policy.{
  normalize_result_validity_policy, IsNormalized, normalize_result_validity_policy-IsNormalized,
}
use frond.Validity.Effective.{
  validity_changed, validity_changed_iff, effective_result_validity, rank, IsAged,
  effective_result_validity_mono, effective_result_validity-IsAged,
}
use frond.Validity.Commit.{
  ResultState, CommitKind, ResultCommitOptions, commit_result_state, commit_driver_operation_result,
}
use frond.Validity.Commit.Checked.{
  IsValid, commit_result_state-IsValid, commit_driver_operation_result-IsValid,
}

abbrev context : Context
context = record { node_id = "todo:1"; tag = "todo" }

abbrev as_millis : ℕ → Option Number
as_millis n = some (whole (pos n))

abbrev five_ten : NormalizedResultValidityPolicy
five_ten = NormalizedResultValidityPolicy.time_bound (some (pos 5)) (some (pos 10))

normalize_result_validity_policy-IsNormalized_example : IsNormalized five_ten
unfolding normalize_result_validity_policy
normalize_result_validity_policy-IsNormalized_example =
    normalize_result_validity_policy-IsNormalized as_millis
      (some (ResultValidityPolicy.time_bound (some 5) (some 10))) context {normalized = five_ten}
      refl

effective_result_validity_mono_example :
    rank (effective_result_validity (current none) five_ten (some (pos 100)) (pos 104))
    ≤ rank (effective_result_validity (current none) five_ten (some (pos 100)) (pos 112))
effective_result_validity_mono_example =
    effective_result_validity_mono (current none) five_ten (some (pos 100)) (pos 104) (pos 112)
      (ground arith)

effective_result_validity-IsAged_example :
    IsAged
      (some (pos 5))
      (some (pos 10))
      (pos 100)
      (pos 107)
      (effective_result_validity (current none) five_ten (some (pos 100)) (pos 107))
effective_result_validity-IsAged_example =
    effective_result_validity-IsAged none (some (pos 5)) (some (pos 10)) (pos 100) (pos 107)

abbrev options : ResultCommitOptions
options = record { context = context; default_loaded_at = none; default_validity = none }

abbrev loaded : ResultState
loaded = record {
  result = text "two";
  result_validity = current (some (pos 100));
  result_loaded_at = some (pos 100);
  result_validity_commit = CommitKind.default;
}

-- The driver says that the result was stale at 90.
abbrev staged : ResultState
staged = record {
  result = text "one";
  result_validity = stale (pos 90);
  result_loaded_at = some (pos 80);
  result_validity_commit = CommitKind.explicit;
}

abbrev combined : ResultState
combined = record {
  result = text "two";
  result_validity = stale (pos 90);
  result_loaded_at = some (pos 100);
  result_validity_commit = CommitKind.explicit;
}

staged-IsValid : IsValid staged
staged-IsValid = record { loaded = ground arith; checked = ground arith }

five_ten-IsNormalized : IsNormalized five_ten
five_ten-IsNormalized = ground arith

commit_result_state-IsValid_example : IsValid loaded
unfolding commit_result_state effective_result_validity
commit_result_state-IsValid_example =
    commit_result_state-IsValid (Returned.bare (text "two")) (some staged) five_ten (pos 100)
      options {r = loaded} five_ten-IsNormalized staged-IsValid refl

commit_driver_operation_result-IsValid_example : IsValid combined
unfolding commit_driver_operation_result commit_result_state
commit_driver_operation_result-IsValid_example =
    commit_driver_operation_result-IsValid (Returned.bare (text "two")) staged five_ten (pos 100)
      options {r = combined} five_ten-IsNormalized staged-IsValid refl

validity_changed_example :
    (validity_changed (stale (pos 90)) (stale (pos 91)) ≡ false) ↔ (stale (pos 90) ≡ stale (pos 91))
validity_changed_example = validity_changed_iff (stale (pos 90)) (stale (pos 91))
