-- ===== src/Base/Sorting.antt =====
-- Python's `sorted`, which is stable, as an insertion sort.
use Prim.Native.Nat.{ℕ, zero, suc}
use mathlib.Core.Path.{◌≡◌, refl}
use mathlib.Core.Bool.{Bool}
use mathlib.Core.List.{List, [], ◌∷◌}
use native.Mathlib.Omega.{arith}
use tutorial_dealfinder.Base.Tests.{if◌then◌else◌, Bool-cases}
use tutorial_dealfinder.Base.Lists.{length, All, take}
use mathlib.Core.Logic.{inl, inr}

module _ {ℓ} {A : Type ℓ} where
  -- before the first item that is not below it
  unfoldable pub insert_sorted : (A → A → Bool) → A → List A → List A
  insert_sorted le x [] = x ∷ []
  insert_sorted le x (y ∷ ys) = if le x y then x ∷ y ∷ ys else y ∷ insert_sorted le x ys

  unfoldable pub sort : (A → A → Bool) → List A → List A
  unfolding insert_sorted
  sort le [] = []
  sort le (x ∷ xs) = insert_sorted le x (sort le xs)

  pub length-insert_sorted :
      (le : A → A → Bool) (x : A) (ys : List A) → length (insert_sorted le x ys) ≡ suc (length ys)
  unfolding insert_sorted
  length-insert_sorted le x [] = refl
  length-insert_sorted le x (y ∷ ys) = ground (arith, length-insert_sorted le x ys)

  pub length-sort : (le : A → A → Bool) (xs : List A) → length (sort le xs) ≡ length xs
  unfolding sort
  length-sort le [] = refl
  length-sort le (x ∷ xs) = omega (arith, length-insert_sorted le x (sort le xs), length-sort le xs)

  pub All-insert_sorted {κ} :
      (P : A → Type κ) (le : A → A → Bool) (x : A) (ys : List A)
      → P x
      → All P ys
      → All P (insert_sorted le x ys)
  unfolding insert_sorted
  All-insert_sorted P le x [] p q = (p, tt)
  All-insert_sorted P le x (y ∷ ys) p q = elim (Bool-cases (le x y)) [
    | inl here ↦ rw here (p, q)
    | inr later ↦ rw later (q.0, All-insert_sorted P le x ys p q.1)
  ]

  -- sorting brings in no item
  pub All-sort {κ} :
      (P : A → Type κ) (le : A → A → Bool) (xs : List A) → All P xs → All P (sort le xs)
  unfolding sort
  All-sort P le [] h = tt
  All-sort P le (x ∷ xs) h = All-insert_sorted P le x (sort le xs) h.0 (All-sort P le xs h.1)

  pub All-take {κ} : (P : A → Type κ) (n : ℕ) (xs : List A) → All P xs → All P (take n xs)
  All-take P zero xs h = tt
  All-take P (suc n) [] h = tt
  All-take P (suc n) (x ∷ xs) h = (h.0, All-take P n xs h.1)
