-- ===== src/Runtime/Limits.antt =====
-- packages/core/src/runtime/limits.ts: the numbers that bound a query.
use frond.Shared.{ℕ, String, Option, none, some}
use frond.Shared.Int.{ℤ, pos}

-- What Number.isFinite, Number.isInteger and the sign tell apart.
pub data LimitNumber : Type 0 where
  integer : ℤ → LimitNumber
  fractional not_finite : LimitNumber

pub data Limited {ℓ} (A : Type ℓ) : Type ℓ where
  allowed : A → Limited A
  out_of_range : String → Limited A

abbrev pub provided_non_negative_integer : String → LimitNumber → Limited ℕ
provided_non_negative_integer label (integer (pos n)) = allowed n
provided_non_negative_integer label _ = out_of_range label

abbrev pub optional_non_negative_integer : String → Option LimitNumber → Limited (Option ℕ)
optional_non_negative_integer label none = allowed none
optional_non_negative_integer label (some value) =
    elim (provided_non_negative_integer label value) [
      | allowed n ↦ allowed (some n)
      | out_of_range l ↦ out_of_range l
    ]

abbrev pub non_negative_integer_with_default : String → ℕ → Option LimitNumber → Limited ℕ
non_negative_integer_with_default label default none = allowed default
non_negative_integer_with_default label default (some value) =
    provided_non_negative_integer label value
