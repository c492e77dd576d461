-- ===== src/Base/SortBy.antt =====
-- `sort_by` with a comparison, which is stable: an insertion sort gives the one stable result.
use Prim.Native.Nat.{suc}
use mathlib.Core.Bool.{Bool, true, false}
use mathlib.Core.List.{List, [], ◌∷◌}
use mathlib.Core.Path.{◌≡◌, refl, ap, ◌∙◌}
use mathlib.Core.Logic.{inl, inr}
use scaphandre.Base.Lists.{length, pop}
use scaphandre.Base.Tests.{Bool-cases, if◌then◌else◌}

module _ {ℓ} {A : Type ℓ} (before : A → A → Bool) where
  unfoldable pub insert_by : A → List A → List A
  insert_by x [] = x ∷ []
  insert_by x (y ∷ ys) = if before x y then x ∷ y ∷ ys else y ∷ insert_by x ys

  unfoldable pub sort_by : List A → List A
  unfolding insert_by
  sort_by [] = []
  sort_by (x ∷ xs) = insert_by x (sort_by xs)

  -- Each element may stand in front of the next one.
  pub data IsSortedBy : List A → Type ℓ where
    sorted_nil : IsSortedBy []
    sorted_one : (x : A) → IsSortedBy (x ∷ [])
    sorted_more :
        (x y : A) (ys : List A) → before x y ≡ true → IsSortedBy (y ∷ ys) → IsSortedBy (x ∷ y ∷ ys)

  pub length-insert_by : (x : A) (ys : List A) → length (insert_by x ys) ≡ suc (length ys)
  unfolding insert_by
  length-insert_by x [] = refl
  length-insert_by x (y ∷ ys) = elim (Bool-cases (before x y)) [
    | inl holds ↦ rw (insert_by, holds) refl
    | inr fails ↦ rw (insert_by, fails) (ap suc (length-insert_by x ys))
  ]

  pub length-sort_by : (xs : List A) → length (sort_by xs) ≡ length xs
  unfolding sort_by
  length-sort_by [] = refl
  length-sort_by (x ∷ xs) = length-insert_by x (sort_by xs) ∙ ap suc (length-sort_by xs)

  pub pop-IsSortedBy : (xs : List A) → IsSortedBy xs → IsSortedBy (pop xs)
  pop-IsSortedBy _ sorted_nil = sorted_nil
  pop-IsSortedBy _ (sorted_one x) = sorted_nil
  pop-IsSortedBy _ (sorted_more x y [] h s) = sorted_one x
  pop-IsSortedBy _ (sorted_more x y (z ∷ zs) h s) =
      sorted_more x y (pop (z ∷ zs)) h (pop-IsSortedBy (y ∷ z ∷ zs) s)

  module _ (total : (x y : A) → before x y ≡ false → before y x ≡ true) where
    insert_by-behind :
        (y x : A) (ys : List A)
        → before y x ≡ true
        → IsSortedBy (y ∷ ys)
        → IsSortedBy (y ∷ insert_by x ys)
    unfolding insert_by
    insert_by-behind y x [] h s = sorted_more y x [] h (sorted_one x)
    insert_by-behind _ x (z ∷ zs) h (sorted_more y _ _ k s) = elim (Bool-cases (before x z)) [
      | inl holds ↦ rw (insert_by, holds) (sorted_more y x (z ∷ zs) h (sorted_more x z zs holds s))
      | inr fails ↦
          rw (insert_by, fails)
            (sorted_more y z (insert_by x zs) k (insert_by-behind z x zs (total x z fails) s))
    ]

    insert_by-IsSortedBy : (x : A) (ys : List A) → IsSortedBy ys → IsSortedBy (insert_by x ys)
    unfolding insert_by
    insert_by-IsSortedBy x [] s = sorted_one x
    insert_by-IsSortedBy x (y ∷ ys) s = elim (Bool-cases (before x y)) [
      | inl holds ↦ rw (insert_by, holds) (sorted_more x y ys holds s)
      | inr fails ↦ rw (insert_by, fails) (insert_by-behind y x ys (total x y fails) s)
    ]

    pub sort_by-IsSortedBy : (xs : List A) → IsSortedBy (sort_by xs)
    unfolding sort_by
    sort_by-IsSortedBy [] = sorted_nil
    sort_by-IsSortedBy (x ∷ xs) = insert_by-IsSortedBy x (sort_by xs) (sort_by-IsSortedBy xs)
