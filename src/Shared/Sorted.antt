-- ===== src/Shared/Sorted.antt =====
-- Sorting by a total and transitive order.
use mathlib.Core.Path.{◌≡◌, refl, ap, ◌∙◌}
use mathlib.Core.Bool.{Bool, true, false}
use mathlib.Core.List.{List, [], ◌∷◌}
use mathlib.Core.Logic.{inl, inr}
use native.Mathlib.Omega.{arith}
use frond.Shared.Tests.{if◌then◌else◌, if_both, Bool-cases}
use frond.Shared.Lists.{All, All-map, keep}
use frond.Shared.Sort.{sort_by, insert_by}

module _ {ℓ} {A : Type ℓ} (before : A → A → Bool) where
  abbrev pub IsBefore : A → A → Type 0
  IsBefore x y = before x y ≡ true

  -- Each entry stands before all of the later ones.
  abbrev pub IsSorted : List A → Type 0
  IsSorted [] = Unit
  IsSorted (x ∷ xs) = All (IsBefore x) xs × IsSorted xs

  abbrev pub Total : Type ℓ
  Total = (x y : A) → before x y ≡ false → before y x ≡ true

  abbrev pub Transitive : Type ℓ
  Transitive = (x y z : A) → before x y ≡ true → before y z ≡ true → before x z ≡ true

  All-insert_by {κ} :
      (P : A → Type κ) (x : A) (xs : List A) → P x → All P xs → All P (insert_by before x xs)
  unfolding insert_by
  All-insert_by P x [] h k = (h, tt)
  All-insert_by P x (y ∷ ys) h k =
      if_both (All P) (before x y) _ _ (λ e. (h, k)) (λ e. (k.0, All-insert_by P x ys h k.1))

  insert_by-IsSorted :
      (x : A) (xs : List A) → Total → Transitive → IsSorted xs → IsSorted (insert_by before x xs)
  unfolding insert_by
  insert_by-IsSorted x [] total trans h = (tt, tt)
  insert_by-IsSorted x (y ∷ ys) total trans h =
      if_both IsSorted (before x y) _ _
        (λ e. ((e, All-map (IsBefore y) (IsBefore x) ys (λ z f. trans x y z e f) h.0), h))
        (λ e. (
          All-insert_by (IsBefore y) x ys (total x y e) h.0,
          insert_by-IsSorted x ys total trans h.1,
        ))

  pub sort_by-IsSorted : (xs : List A) → Total → Transitive → IsSorted (sort_by before xs)
  unfolding sort_by
  sort_by-IsSorted [] total trans = tt
  sort_by-IsSorted (x ∷ xs) total trans =
      insert_by-IsSorted x (sort_by before xs) total trans (sort_by-IsSorted xs total trans)

  -- What comes before a list's every entry is put first.
  insert_by-least : (x : A) (xs : List A) → All (IsBefore x) xs → insert_by before x xs ≡ x ∷ xs
  unfolding insert_by
  insert_by-least x [] h = refl
  insert_by-least x (y ∷ ys) h = rw (h.0, insert_by) refl

  pub sort_by-sorted : (xs : List A) → IsSorted xs → sort_by before xs ≡ xs
  unfolding sort_by
  sort_by-sorted [] h = refl
  sort_by-sorted (x ∷ xs) h =
      ap (insert_by before x) (sort_by-sorted xs h.1) ∙ insert_by-least x xs h.0

  All-keep {κ} : (P : A → Type κ) (test : A → Bool) (xs : List A) → All P xs → All P (keep test xs)
  All-keep P test [] h = tt
  All-keep P test (x ∷ xs) h =
      if_both (All P) (test x) _ _ (λ e. (h.0, All-keep P test xs h.1))
        (λ e. All-keep P test xs h.1)

  pub keep-IsSorted : (test : A → Bool) (xs : List A) → IsSorted xs → IsSorted (keep test xs)
  keep-IsSorted test [] h = tt
  keep-IsSorted test (x ∷ xs) h =
      if_both IsSorted (test x) _ _
        (λ e. (All-keep (IsBefore x) test xs h.0, keep-IsSorted test xs h.1))
        (λ e. keep-IsSorted test xs h.1)

  keep-insert_by :
      (test : A → Bool) (x : A) (xs : List A)
      → Transitive
      → IsSorted xs
      → keep test (insert_by before x xs)
        ≡ (if test x then insert_by before x (keep test xs) else keep test xs)
  unfolding insert_by
  keep-insert_by test x [] trans h = refl
  keep-insert_by test x (y ∷ ys) trans h = elim (Bool-cases (before x y)) [
    | inl e ↦
        let after : All (IsBefore x) (y ∷ ys) =
          (e, All-map (IsBefore y) (IsBefore x) ys (λ z f. trans x y z e f) h.0) in
        let least =
          insert_by-least x (keep test (y ∷ ys)) (All-keep (IsBefore x) test (y ∷ ys) after) in
        rw (e, insert_by) (ground (arith, least))
    | inr e ↦ ground (arith, e, keep-insert_by test x ys trans h.1)
  ]

  -- Sorting and filtering in either order.
  pub keep-sort_by :
      (test : A → Bool) (xs : List A)
      → Total
      → Transitive
      → keep test (sort_by before xs) ≡ sort_by before (keep test xs)
  unfolding sort_by
  keep-sort_by test [] total trans = refl
  keep-sort_by test (x ∷ xs) total trans =
      let step =
        keep-insert_by test x (sort_by before xs) trans (sort_by-IsSorted xs total trans) in
      ground (arith, step, keep-sort_by test xs total trans)
