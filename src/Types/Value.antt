-- ===== src/Types/Value.antt =====
-- The values that the program handles as `unknown`: what `typeof` tells apart and `===` compares.
-- An object is its reference. A number is a whole one, or one of those that are not finite.
use frond.Shared.Int.{ℤ, pos, leb_ℤ}
use frond.Shared.{ℕ, String, Bool, true, false, string_eq, nat_eq}

pub data Number : Type 0 where
  nan : Number
  infinite : Bool → Number
  whole : ℤ → Number

pub data Value : Type 0 where
  undefined null : Value
  boolean : Bool → Value
  number : Number → Value
  text : String → Value
  object : ℕ → Value

-- `Number.isFinite(value) && value >= 0`.
abbrev pub finite_nonnegative : Number → Bool
finite_nonnegative (whole z) = leb_ℤ (pos 0) z
finite_nonnegative _ = false

-- What `??` passes over.
abbrev pub is_nullish : Value → Bool
is_nullish undefined = true
is_nullish null = true
is_nullish _ = false

-- `value === undefined`.
abbrev pub is_undefined : Value → Bool
is_undefined undefined = true
is_undefined _ = false
