-- ===== src/Common/Sort.antt =====
-- std::sort as an insertion sort. Where the order leaves two elements unranked the library may return
-- either order; this one keeps the given order.
use mathlib.Core.Path.{◌≡◌, refl, ap, ◌∙◌}
use mathlib.Core.Bool.{Bool, true, false}
use mathlib.Core.List.{List, [], ◌∷◌, Perm}
use mathlib.Core.List.Perm
use native.Mathlib.Omega.{arith}
use Prim.Native.Nat.{ℕ}
use intent_execution_layer.Common.Tests.{if◌then◌else◌, Bool-cases}
use intent_execution_layer.Common.Lists.{length, count_if, any, is_empty}
use mathlib.Core.Logic.{inl, inr}

module _ {ℓ} {A : Type ℓ} (less : A → A → Bool) where
  unfoldable pub insert_sorted : A → List A → List A
  insert_sorted a [] = a ∷ []
  insert_sorted a (x ∷ xs) = if less x a then x ∷ insert_sorted a xs else a ∷ x ∷ xs

  unfoldable pub sort : List A → List A
  unfolding insert_sorted
  sort [] = []
  sort (x ∷ xs) = insert_sorted x (sort xs)

  -- No element is less than the one before it.
  abbrev pub IsSorted : List A → Type 0
  IsSorted [] = Unit
  IsSorted (x ∷ []) = Unit
  IsSorted (x ∷ y ∷ xs) = (less y x ≡ false) × IsSorted (y ∷ xs)

  insert_sorted-perm : (a : A) (xs : List A) → Perm (a ∷ xs) (insert_sorted a xs)
  unfolding insert_sorted
  insert_sorted-perm a [] = Perm.refl (a ∷ [])
  insert_sorted-perm a (x ∷ xs) = elim (Bool-cases (less x a)) [
    | inl e ↦ rw e (Perm.trans (Perm.swap x a xs) (Perm.cons x (insert_sorted-perm a xs)))
    | inr e ↦ rw e (Perm.refl (a ∷ x ∷ xs))
  ]

  pub sort-perm : (xs : List A) → Perm xs (sort xs)
  unfolding sort
  sort-perm [] = Perm.nil
  sort-perm (x ∷ xs) = Perm.trans (Perm.cons x (sort-perm xs)) (insert_sorted-perm x (sort xs))

  pub length-insert_sorted : (a : A) (xs : List A) → length (insert_sorted a xs) ≡ ℕ.suc (length xs)
  unfolding insert_sorted
  length-insert_sorted a [] = refl
  length-insert_sorted a (x ∷ xs) = ground (arith, length-insert_sorted a xs)

  pub length-sort : (xs : List A) → length (sort xs) ≡ length xs
  unfolding sort
  length-sort [] = refl
  length-sort (x ∷ xs) = length-insert_sorted x (sort xs) ∙ ap ℕ.suc (length-sort xs)

  count_if-insert_sorted :
      (p : A → Bool) (a : A) (xs : List A) → count_if p (insert_sorted a xs) ≡ count_if p (a ∷ xs)
  unfolding insert_sorted
  count_if-insert_sorted p a [] = refl
  count_if-insert_sorted p a (x ∷ xs) = ground (arith, count_if-insert_sorted p a xs)

  pub count_if-sort : (p : A → Bool) (xs : List A) → count_if p (sort xs) ≡ count_if p xs
  unfolding sort
  count_if-sort p [] = refl
  count_if-sort p (x ∷ xs) =
      ground (arith, count_if-insert_sorted p x (sort xs), count_if-sort p xs)

  any-insert_sorted :
      (p : A → Bool) (a : A) (xs : List A) → any p (insert_sorted a xs) ≡ any p (a ∷ xs)
  unfolding insert_sorted
  any-insert_sorted p a [] = refl
  any-insert_sorted p a (x ∷ xs) = ground (arith, any-insert_sorted p a xs)

  pub any-sort : (p : A → Bool) (xs : List A) → any p (sort xs) ≡ any p xs
  unfolding sort
  any-sort p [] = refl
  any-sort p (x ∷ xs) = ground (arith, any-insert_sorted p x (sort xs), any-sort p xs)

  pub is_empty-sort : (xs : List A) → is_empty (sort xs) ≡ is_empty xs
  unfolding sort insert_sorted
  is_empty-sort [] = refl
  is_empty-sort (x ∷ xs) = nonempty x (sort xs)
    where
      nonempty : (a : A) (ys : List A) → is_empty (insert_sorted a ys) ≡ false
      nonempty a [] = refl
      nonempty a (y ∷ ys) = ground arith

  module _ (asym : (a b : A) → less a b ≡ true → less b a ≡ false) where
    insert_sorted-IsSorted : (a : A) (xs : List A) → IsSorted xs → IsSorted (insert_sorted a xs)
    unfolding insert_sorted
    insert_sorted-IsSorted a [] h = tt
    insert_sorted-IsSorted a (x ∷ []) h = ground (arith, asym x a)
    insert_sorted-IsSorted a (x ∷ y ∷ xs) h =
        ground (arith, asym x a, asym y a, insert_sorted-IsSorted a (y ∷ xs))

    pub sort-IsSorted : (xs : List A) → IsSorted (sort xs)
    unfolding sort
    sort-IsSorted [] = tt
    sort-IsSorted (x ∷ xs) = insert_sorted-IsSorted x (sort xs) (sort-IsSorted xs)
