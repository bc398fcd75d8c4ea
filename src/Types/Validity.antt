-- ===== src/Types/Validity.antt =====
-- packages/core/src/graph/types/resultValidity.ts: how current a result is, and the policies that
-- say how long it stays so. Times are whole milliseconds.
use frond.Shared.{Option}
use frond.Shared.Int.{ℤ}
use frond.Types.Value.{Value}

pub data ResultValidity : Type 0 where
  current : Option ℤ → ResultValidity
  stale : ℤ → ResultValidity
  expired : ℤ → ResultValidity

-- `D` stands for the `Duration.Input` of the effect library.
pub data ResultValidityPolicy (D : Type 0) : Type 0 where
  static manual : ResultValidityPolicy D
  time_bound : Option D → Option D → ResultValidityPolicy D

pub data NormalizedResultValidityPolicy : Type 0 where
  static manual : NormalizedResultValidityPolicy
  time_bound : Option ℤ → Option ℤ → NormalizedResultValidityPolicy

-- A validity as a driver hands it over, before it is checked: missing, null, no tagged object, or
-- an object with a `_tag` and whatever stands in the three fields.
pub record TaggedValidity : Type 0 where
  pub tag : Value
  pub current_at : Value
  pub stale_at : Value
  pub expired_at : Value

pub data ValidityInput : Type 0 where
  absent null untagged : ValidityInput
  tagged : TaggedValidity → ValidityInput

-- What a driver returns: a bare result, or a `ResultCommit` with metadata.
pub record ResultCommit : Type 0 where
  pub result : Value
  pub validity : ValidityInput
  pub loaded_at : Value

pub data Returned : Type 0 where
  bare : Value → Returned
  commit : ResultCommit → Returned
