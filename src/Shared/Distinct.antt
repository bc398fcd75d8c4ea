-- ===== src/Shared/Distinct.antt =====
-- Lists without repetition: two of the same length are one set if one is part of the other.
use Prim.Native.Nat.{◌+◌}
use frond.Shared.Tests.{Eq, ◌==◌, beq_refl, if_both}
use frond.Shared.Lists.{has, keep, length}
use frond.Shared.Sort.{has-eq, unique, unique_from, has-unique_from}
use mathlib.Core.Path.{◌≡◌, refl}
use mathlib.Core.Bool.{true, false, not, ◌&&◌}
use mathlib.Core.List.{List, [], ◌∷◌}
use native.Mathlib.Omega.{arith}

module _ {A : Type 0} ⦃e : Eq A⦄ where
  abbrev pub IsDistinct : List A → Type 0
  IsDistinct [] = Unit
  IsDistinct (x ∷ xs) = (has x xs ≡ false) × IsDistinct xs

  abbrev less : A → List A → List A
  less x ys = keep (λ y. not (x == y)) ys

  has-less : (a x : A) (ys : List A) → has a (less x ys) ≡ (not (x == a) && has a ys)
  unfolding has
  has-less a x [] = ground arith
  has-less a x (y ∷ ys) =
      ground (arith, has-less a x ys, e.beq_iff x a, e.beq_iff x y, e.beq_iff y a)

  less-IsDistinct : (x : A) (ys : List A) → IsDistinct ys → IsDistinct (less x ys)
  less-IsDistinct x [] h = tt
  less-IsDistinct x (y ∷ ys) h =
      if_both IsDistinct (not (x == y)) _ _
        (λ d. (ground (arith, has-less y x ys, h.0), less-IsDistinct x ys h.1))
        (λ d. less-IsDistinct x ys h.1)

  less-absent : (x : A) (ys : List A) → has x ys ≡ false → less x ys ≡ ys
  unfolding has
  less-absent x [] h = refl
  less-absent x (y ∷ ys) h = ground (arith, h, less-absent x ys, e.beq_iff x y, e.beq_iff y x)

  length-less :
      (x : A) (ys : List A) → IsDistinct ys → has x ys ≡ true → length (less x ys) + 1 ≡ length ys
  unfolding has
  length-less x [] h m = cc
  length-less x (y ∷ ys) h m =
      ground (arith, m, h.0, length-less x ys h.1, less-absent x ys, e.beq_iff x y, e.beq_iff y x)

  pub same_length :
      (xs ys : List A)
      → IsDistinct xs
      → IsDistinct ys
      → length xs ≡ length ys
      → ((a : A) → has a xs ≡ true → has a ys ≡ true)
      → (a : A) → has a ys ≡ true
      → has a xs ≡ true
  unfolding has
  same_length [] [] dx dy l h a m = m
  same_length [] (y ∷ ys) dx dy l h a m = absurd (omega (arith, l))
  same_length (x ∷ xs) ys dx dy l h a m =
      let there = h x (ground (arith, beq_refl x)) in
      let rest =
        same_length xs (less x ys) dx.1 (less-IsDistinct x ys dy)
          (omega (arith, l, length-less x ys dy there))
          (λ b k. ground (arith, has-less b x ys, h b, k, dx.0, e.beq_iff x b)) a in
      ground (arith, rest, has-less a x ys, m)

  pub length-same :
      (xs ys : List A)
      → IsDistinct xs
      → IsDistinct ys
      → ((a : A) → has a xs ≡ has a ys)
      → length xs ≡ length ys
  unfolding has
  length-same [] [] dx dy h = refl
  length-same [] (y ∷ ys) dx dy h = ground (arith, h y, beq_refl y)
  length-same (x ∷ xs) ys dx dy h =
      let there : has x ys ≡ true = ground (arith, h x, beq_refl x) in
      let rest =
        length-same xs (less x ys) dx.1 (less-IsDistinct x ys dy)
          (λ a. ground (arith, h a, has-less a x ys, dx.0, has-eq x a xs)) in
      omega (arith, rest, length-less x ys dy there)

  unique_from-IsDistinct : (seen xs : List A) → IsDistinct (unique_from seen xs)
  unfolding unique_from has
  unique_from-IsDistinct seen [] = tt
  unique_from-IsDistinct seen (x ∷ xs) =
      if_both IsDistinct (has x seen) _ _ (λ h. unique_from-IsDistinct seen xs)
        (λ h. (
          ground (arith, has-unique_from x (x ∷ seen) xs, beq_refl x),
          unique_from-IsDistinct (x ∷ seen) xs,
        ))

  pub unique-IsDistinct : (xs : List A) → IsDistinct (unique xs)
  unfolding unique
  unique-IsDistinct xs = unique_from-IsDistinct [] xs
