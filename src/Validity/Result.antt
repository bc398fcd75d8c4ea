-- ===== src/Validity/Result.antt =====
-- A computation that may throw a `GraphInvariantViolation` of the result validity code.
use frond.Shared.{String, ◌≡◌, refl, Bool, true, false, if◌then◌else◌}

-- ResultValidityContext.
pub record Context : Type 0 where
  pub node_id : String
  pub tag : String

pub data Field : Type 0 where
  stale_after expire_after current_at stale_at expired_at : Field

-- The texts of the violations, one constructor for each.
pub data Invariant : Type 0 where
  duration_finite_nonnegative validity_at_finite_nonnegative : Field → Invariant
  expire_after_at_least_stale_after loaded_at_finite_nonnegative validity_tag_known : Invariant

-- The `cause` that an error carries for its reader is left out.
pub record GraphInvariantViolation : Type 0 where
  pub node_id : String
  pub tag : String
  pub invariant : Invariant

pub data Result {ℓ} (A : Type ℓ) : Type ℓ where
  ok : A → Result A
  err : GraphInvariantViolation → Result A

infixl 5 ◌>>=◌
abbrev pub ◌>>=◌ {ℓ κ} : {A : Type ℓ} {B : Type κ} → Result A → (A → Result B) → Result B
ok a >>= f = f a
err e >>= f = err e

-- `throw new GraphInvariantViolation({ nodeId, tag, invariant })`.
abbrev pub violation {ℓ} : {A : Type ℓ} → Context → Invariant → Result A
violation context invariant =
    err (record { node_id = context.node_id; tag = context.tag; invariant = invariant })

-- The value, if there is one, satisfies the predicate.
pub record Ensures {ℓ κ} {A : Type ℓ} (P : A → Type κ) (m : Result A) : Type (ℓ ⊔ κ) where
  pub holds : (a : A) → m ≡ ok a → P a

ok_injective {ℓ κ} : {A : Type ℓ} (P : A → Type κ) (a b : A) → ok a ≡ ok b → P a → P b
ok_injective P a b e h = let k : a ≡ b = cc in rw (← k) h

pub Ensures-ok {ℓ κ} : {A : Type ℓ} {P : A → Type κ} (a : A) → P a → Ensures P (ok a)
Ensures-ok {P} a h = record { holds = λ b e. ok_injective P a b e h }

pub Ensures-err {ℓ κ} :
    {A : Type ℓ} {P : A → Type κ} (e : GraphInvariantViolation) → Ensures P (err e)
Ensures-err e = record { holds = λ b h. cc }

pub Ensures-bind {ℓ κ μ ν} :
    {A : Type ℓ} {B : Type κ} {P : A → Type μ} {Q : B → Type ν} (m : Result A) (f : A → Result B)
    → Ensures P m
    → ((a : A) → P a → Ensures Q (f a))
    → Ensures Q (m >>= f)
Ensures-bind (ok a) f h k = k a (h.holds a refl)
Ensures-bind (err e) f h k = Ensures-err e

pub Ensures-if {ℓ κ} :
    {A : Type ℓ} {P : A → Type κ} (b : Bool) (m n : Result A)
    → Ensures P m
    → Ensures P n
    → Ensures P (if b then m else n)
Ensures-if true m n h k = h
Ensures-if false m n h k = k
