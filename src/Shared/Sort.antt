-- ===== src/Shared/Sort.antt =====
-- `array.sort(compare)`, which is stable, and `[...new Set(array)]`, which keeps the first of each.
use frond.Shared.Tests.{Eq, ◌==◌, if◌then◌else◌}
use frond.Shared.Lists.{has}
use mathlib.Core.Path.{◌≡◌, refl, ap}
use mathlib.Core.Bool.{Bool, true, ◌||◌, ◌&&◌, not}
use mathlib.Core.List.{List, [], ◌∷◌}
use native.Mathlib.Omega.{arith}

module _ {ℓ} {A : Type ℓ} where
  -- `before x y` is `compare(x, y) <= 0`.
  unfoldable pub insert_by : (A → A → Bool) → A → List A → List A
  insert_by before x [] = x ∷ []
  insert_by before x (y ∷ ys) = if before x y then x ∷ y ∷ ys else y ∷ insert_by before x ys

  unfoldable pub sort_by : (A → A → Bool) → List A → List A
  unfolding insert_by
  sort_by before [] = []
  sort_by before (x ∷ xs) = insert_by before x (sort_by before xs)

module _ {ℓ} {A : Type ℓ} ⦃e : Eq A⦄ where
  -- The first of each value, in order, but for those that were seen before.
  unfoldable pub unique_from : List A → List A → List A
  unfolding has
  unique_from seen [] = []
  unique_from seen (x ∷ xs) =
      let rest = unique_from (x ∷ seen) xs in
      let again = unique_from seen xs in if has x seen then again else x ∷ rest

  unfoldable pub unique : List A → List A
  unfolding unique_from
  unique xs = unique_from [] xs

  pub has-insert_by :
      (before : A → A → Bool) (a x : A) (xs : List A)
      → has a (insert_by before x xs) ≡ (x == a || has a xs)
  unfolding has insert_by
  has-insert_by before a x [] = refl
  has-insert_by before a x (y ∷ ys) = ground (arith, has-insert_by before a x ys)

  pub has-sort_by :
      (before : A → A → Bool) (a : A) (xs : List A) → has a (sort_by before xs) ≡ has a xs
  unfolding has sort_by
  has-sort_by before a [] = refl
  has-sort_by before a (x ∷ xs) =
      ground (arith, has-insert_by before a x (sort_by before xs), has-sort_by before a xs)

  pub has-eq : (x a : A) (xs : List A) → (x == a) ≡ true → has x xs ≡ has a xs
  has-eq x a xs h = ap (λ z. has z xs) ((e.beq_iff x a).0 h)

  pub has-unique_from :
      (a : A) (seen xs : List A) → has a (unique_from seen xs) ≡ (not (has a seen) && has a xs)
  unfolding has unique_from
  has-unique_from a seen [] = ground arith
  has-unique_from a seen (x ∷ xs) =
      ground (arith, has-unique_from a seen xs, has-unique_from a (x ∷ seen) xs, has-eq x a seen)

  pub has-unique : (a : A) (xs : List A) → has a (unique xs) ≡ has a xs
  unfolding unique
  has-unique a xs = has-unique_from a [] xs
