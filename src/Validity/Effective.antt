-- ===== src/Validity/Effective.antt =====
-- effectiveResultValidity and validityChanged of packages/core/src/graph/resultValidity/index.ts.
use frond.Shared.{
  ℕ, ◌≤◌, ◌≡◌, ◌↔◌, not, ◌||◌, ◌&&◌, ◌⊎◌, Bool, true, false, Option, none, some, arith,
  if◌then◌else◌,
}
use frond.Shared.Int.{ℤ, leb_ℤ, ◌+ℤ◌, ◌-ℤ◌, ◌≤ℤ◌}
use frond.Types.Validity.{ResultValidity, current, stale, expired, NormalizedResultValidityPolicy}

-- `bound !== undefined && age >= bound`.
due : Option ℤ → ℤ → Bool
due none age = false
due (some bound) age = leb_ℤ bound age

abbrev plus : ℤ → Option ℤ → ℤ
plus at none = at
plus at (some bound) = at +ℤ bound

-- The time-bound case, once the stored validity is current and the load time is known.
aged : Option ℤ → Option ℤ → ℤ → ℤ → ResultValidity
aged stale_after expire_after loaded_at now =
    let age = now -ℤ loaded_at in
    if due expire_after age
    then expired (plus loaded_at expire_after)
    else if due stale_after age
    then stale (plus loaded_at stale_after)
    else current (some loaded_at)

unfoldable pub effective_result_validity :
    ResultValidity → NormalizedResultValidityPolicy → Option ℤ → ℤ → ResultValidity
unfolding aged due
effective_result_validity (current at) (NormalizedResultValidityPolicy.time_bound s e)
      (some loaded_at) now =
    aged s e loaded_at now
effective_result_validity stored policy loaded_at now = stored

-- The time of a validity, where it has one.
abbrev pub validity_at : ResultValidity → Option ℤ
validity_at (current at) = at
validity_at (stale at) = some at
validity_at (expired at) = some at

abbrev same_time : Option ℤ → Option ℤ → Bool
same_time none none = true
same_time (some a) (some b) = leb_ℤ a b && leb_ℤ b a
same_time _ _ = false

abbrev same_tag : ResultValidity → ResultValidity → Bool
same_tag (current a) (current b) = true
same_tag (stale a) (stale b) = true
same_tag (expired a) (expired b) = true
same_tag _ _ = false

unfoldable pub validity_changed : ResultValidity → ResultValidity → Bool
validity_changed left right =
    not (same_tag left right) || not (same_time (validity_at left) (validity_at right))

-- No change of validity is reported exactly where the two validities are equal.
pub validity_changed_iff :
    (left right : ResultValidity) → (validity_changed left right ≡ false) ↔ (left ≡ right)
unfolding validity_changed
validity_changed_iff (current none) (current none) = ground arith
validity_changed_iff (current none) (current (some b)) = ground arith
validity_changed_iff (current (some a)) (current none) = ground arith
validity_changed_iff (current (some a)) (current (some b)) = ground arith
validity_changed_iff (stale a) (stale b) = ground arith
validity_changed_iff (expired a) (expired b) = ground arith
validity_changed_iff left right = ground arith

-- How far a result has aged.
abbrev pub rank : ResultValidity → ℕ
rank (current at) = 0
rank (stale at) = 1
rank (expired at) = 2

due_mono :
    (bound : Option ℤ) (loaded_at now later : ℤ)
    → now ≤ℤ later
    → due bound (now -ℤ loaded_at) ≡ true
    → due bound (later -ℤ loaded_at) ≡ true
unfolding due
due_mono none l now later h d = d
due_mono (some b) l now later h d = ground arith

aged_mono :
    (s e : Option ℤ) (loaded_at now later : ℤ)
    → now ≤ℤ later
    → rank (aged s e loaded_at now) ≤ rank (aged s e loaded_at later)
unfolding aged
aged_mono s e l now later h = ground (arith, due_mono s l now later h, due_mono e l now later h)

-- A result never gets fresher as the clock moves on: its effective validity goes from current to
-- stale to expired, and not back, whatever the policy and the stored validity.
pub effective_result_validity_mono :
    (stored : ResultValidity) (policy : NormalizedResultValidityPolicy) (loaded_at : Option ℤ)
    (now later : ℤ)
    → now ≤ℤ later
    → rank (effective_result_validity stored policy loaded_at now)
      ≤ rank (effective_result_validity stored policy loaded_at later)
unfolding effective_result_validity
effective_result_validity_mono (current at) (NormalizedResultValidityPolicy.time_bound s e) (some l)
      now later h =
    aged_mono s e l now later h
effective_result_validity_mono _ _ _ now later h = ground arith

-- When a result that was loaded at a time is due under an optional bound.
abbrev pub IsDue : Option ℤ → ℤ → ℤ → Type 0
IsDue none loaded_at now = ⊥
IsDue (some bound) loaded_at now = loaded_at +ℤ bound ≤ℤ now

-- The validity that a time-bound policy gives a current result, by the clock alone.
abbrev pub IsAged : Option ℤ → Option ℤ → ℤ → ℤ → ResultValidity → Type 0
IsAged s e loaded_at now r =
    (IsDue e loaded_at now × (r ≡ expired (plus loaded_at e)))
    ⊎ ((¬ IsDue e loaded_at now) × IsDue s loaded_at now × (r ≡ stale (plus loaded_at s)))
    ⊎ ((¬ IsDue e loaded_at now) × (¬ IsDue s loaded_at now) × (r ≡ current (some loaded_at)))

-- Under a time-bound policy a current result with a known load time is expired exactly from load
-- time plus `expireAfter` on, otherwise stale exactly from load time plus `staleAfter` on, and
-- otherwise current since its load time; a bound that is not given never falls due.
pub effective_result_validity-IsAged :
    (at : Option ℤ) (s e : Option ℤ) (loaded_at now : ℤ)
    → IsAged s e loaded_at now (
        effective_result_validity
          (current at)
          (NormalizedResultValidityPolicy.time_bound s e)
          (some loaded_at)
          now)
unfolding effective_result_validity
effective_result_validity-IsAged at none none l now = ground arith
effective_result_validity-IsAged at none (some e) l now = ground arith
effective_result_validity-IsAged at (some s) none l now = ground arith
effective_result_validity-IsAged at (some s) (some e) l now = ground arith
