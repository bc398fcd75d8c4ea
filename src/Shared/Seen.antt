-- ===== src/Shared/Seen.antt =====
-- Walks that keep a set of what they have seen: each new member of a finite list leaves fewer of it
-- unseen, which bounds the walk.
use Prim.Native.Nat.{ℕ, suc, ◌≤◌, ◌<◌}
use frond.Shared.Tests.{Eq, if◌then◌else◌}
use frond.Shared.Sort.{has-eq}
use frond.Shared.Lists.{has, has-append, length}
use mathlib.Core.Path.{◌≡◌, refl}
use mathlib.Core.Bool.{true, false}
use mathlib.Core.List.{List, [], ◌∷◌, ◌++◌}
use native.Mathlib.Omega.{arith}

module _ {ℓ} {A : Type ℓ} ⦃e : Eq A⦄ where
  -- How many places of the list hold something that is not seen.
  unfoldable pub unseen : List A → List A → ℕ
  unseen seen [] = 0
  unseen seen (x ∷ xs) = let rest = unseen seen xs in if has x seen then rest else suc rest

  pub unseen-le-length : (seen xs : List A) → unseen seen xs ≤ length xs
  unfolding unseen
  unseen-le-length seen [] = omega arith
  unseen-le-length seen (x ∷ xs) = ground (arith, unseen-le-length seen xs)

  pub unseen_mono : (x : A) (seen xs : List A) → unseen (x ∷ seen) xs ≤ unseen seen xs
  unfolding unseen has
  unseen_mono x seen [] = omega arith
  unseen_mono x seen (y ∷ ys) = ground (arith, unseen_mono x seen ys)

  pub unseen_lt :
      (x : A) (seen xs : List A)
      → has x xs ≡ true
      → has x seen ≡ false
      → unseen (x ∷ seen) xs < unseen seen xs
  unfolding unseen has
  unseen_lt x seen [] h n = ground arith
  unseen_lt x seen (y ∷ ys) h n = ground (
    arith,
    e.beq_iff x y,
    e.beq_iff y x,
    has-eq y x seen,
    unseen_mono x seen ys,
    unseen_lt x seen ys,
  )

  pub unseen-snoc : (x : A) (seen xs : List A) → unseen (seen ++ x ∷ []) xs ≡ unseen (x ∷ seen) xs
  unfolding unseen has
  unseen-snoc x seen [] = refl
  unseen-snoc x seen (y ∷ ys) = ground (arith, has-append y seen (x ∷ []), unseen-snoc x seen ys)
