-- ===== src/Validity/Policy.antt =====
-- normalizeResultValidityPolicy of packages/core/src/graph/resultValidity/index.ts. The effect
-- library's `Duration.toMillis(Duration.fromInputUnsafe(value))` is the parameter `to_millis`:
-- nothing where it throws.
use frond.Shared.{◌≡◌, Bool, false, Option, none, some, arith, if◌then◌else◌}
use frond.Shared.Int.{ℤ, pos, ltb_ℤ, ◌≤ℤ◌}
use frond.Types.Value.{Number, whole}
use frond.Types.Validity.{ResultValidityPolicy, NormalizedResultValidityPolicy}
use frond.Validity.Result.{
  Result, ok, violation, ◌>>=◌, Context, Field, stale_after, expire_after,
  duration_finite_nonnegative, expire_after_at_least_stale_after,
}

abbrev pub static_result_validity_policy : NormalizedResultValidityPolicy
static_result_validity_policy = NormalizedResultValidityPolicy.static

-- `!Number.isFinite(millis) || millis < 0` throws.
check_millis : Number → Field → Context → Result ℤ
check_millis (whole z) field context =
    if ltb_ℤ z (pos 0) then violation context (duration_finite_nonnegative field) else ok z
check_millis _ field context = violation context (duration_finite_nonnegative field)

expires_before_stale : Option ℤ → Option ℤ → Bool
expires_before_stale (some s) (some e) = ltb_ℤ e s
expires_before_stale _ _ = false

module _ {D : Type 0} (to_millis : D → Option Number) where
  decode_duration_millis : D → Field → Context → Result ℤ
  unfolding check_millis
  decode_duration_millis value field context = elim (to_millis value) [
    | none ↦ violation context (duration_finite_nonnegative field)
    | some millis ↦ check_millis millis field context
  ]

  decode_optional : Option D → Field → Context → Result (Option ℤ)
  unfolding decode_duration_millis
  decode_optional none field context = ok none
  decode_optional (some value) field context = do
    millis ← decode_duration_millis value field context
    ok (some millis)

  normalize_time_bound_policy :
      Option D → Option D → Context → Result NormalizedResultValidityPolicy
  unfolding decode_optional expires_before_stale
  normalize_time_bound_policy stale expire context = do
    stale_millis ← decode_optional stale stale_after context
    expire_millis ← decode_optional expire expire_after context
    if expires_before_stale stale_millis expire_millis
        then violation context expire_after_at_least_stale_after
        else ok (NormalizedResultValidityPolicy.time_bound stale_millis expire_millis)

  unfoldable pub normalize_result_validity_policy :
      Option (ResultValidityPolicy D) → Context → Result NormalizedResultValidityPolicy
  unfolding normalize_time_bound_policy
  normalize_result_validity_policy none context = ok static_result_validity_policy
  normalize_result_validity_policy (some ResultValidityPolicy.static) context =
      ok static_result_validity_policy
  normalize_result_validity_policy (some ResultValidityPolicy.manual) context =
      ok NormalizedResultValidityPolicy.manual
  normalize_result_validity_policy (some (ResultValidityPolicy.time_bound stale expire)) context =
      normalize_time_bound_policy stale expire context

-- What a normalized policy promises: its times are not negative, and in order.
abbrev Nonnegative : Option ℤ → Type 0
Nonnegative none = Unit
Nonnegative (some z) = pos 0 ≤ℤ z

abbrev pub IsNormalized : NormalizedResultValidityPolicy → Type 0
IsNormalized (NormalizedResultValidityPolicy.time_bound none e) = Nonnegative e
IsNormalized (NormalizedResultValidityPolicy.time_bound (some s) none) = pos 0 ≤ℤ s
IsNormalized (NormalizedResultValidityPolicy.time_bound (some s) (some e)) = (pos 0 ≤ℤ s) × (s ≤ℤ e)
IsNormalized _ = Unit

module _ {D : Type 0} (to_millis : D → Option Number) where
  decode_nonnegative :
      (value : D) (field : Field) (context : Context) {z : ℤ}
      → decode_duration_millis to_millis value field context ≡ ok z
      → pos 0 ≤ℤ z
  unfolding decode_duration_millis
  decode_nonnegative value field context h = ground arith

  normalize_time_bound_policy-IsNormalized :
      (s e : Option D) (context : Context) {normalized : NormalizedResultValidityPolicy}
      → normalize_time_bound_policy to_millis s e context ≡ ok normalized
      → IsNormalized normalized
  unfolding normalize_time_bound_policy
  normalize_time_bound_policy-IsNormalized none none context h = ground arith
  normalize_time_bound_policy-IsNormalized (some s) none context h = ground arith
  normalize_time_bound_policy-IsNormalized none (some e) context h = ground arith
  normalize_time_bound_policy-IsNormalized (some s) (some e) context h = ground arith

  -- A policy that is accepted has times that are not negative, and does not expire a result before
  -- it makes it stale.
  pub normalize_result_validity_policy-IsNormalized :
      (policy : Option (ResultValidityPolicy D)) (context : Context)
      {normalized : NormalizedResultValidityPolicy}
      → normalize_result_validity_policy to_millis policy context ≡ ok normalized
      → IsNormalized normalized
  unfolding normalize_result_validity_policy
  normalize_result_validity_policy-IsNormalized none context h = ground arith
  normalize_result_validity_policy-IsNormalized (some ResultValidityPolicy.static) context h =
      ground arith
  normalize_result_validity_policy-IsNormalized (some ResultValidityPolicy.manual) context h =
      ground arith
  normalize_result_validity_policy-IsNormalized (some (ResultValidityPolicy.time_bound s e)) context
        h =
      normalize_time_bound_policy-IsNormalized s e context h
