-- ===== src/Base/Lists.antt =====
-- Lists measured by native numbers, and Boolean tests of their items.
use Prim.Native.Nat.{ℕ, zero, suc, ◌+◌, ◌≤◌, min}
use mathlib.Core.Path.{◌≡◌, refl, sym, subst}
use mathlib.Core.Bool.{Bool, true, false, ◌&&◌, ◌||◌}
use mathlib.Core.List.{List, [], ◌∷◌, ◌++◌}
use native.Mathlib.Omega.{arith}
use tutorial_dealfinder.Base.Tests.{if◌then◌else◌, Comparable, ◌==◌, Bool-cases}
use mathlib.Core.Logic.{inl, inr, ◌↔◌}

module _ {ℓ} {A : Type ℓ} where
  abbrev pub length : List A → ℕ
  length [] = 0
  length (x ∷ xs) = suc (length xs)

  pub length-append : (xs ys : List A) → length (xs ++ ys) ≡ length xs + length ys
  length-append [] ys = omega arith
  length-append (x ∷ xs) ys = omega (arith, length-append xs ys)

  abbrev pub take : ℕ → List A → List A
  take zero xs = []
  take (suc n) [] = []
  take (suc n) (x ∷ xs) = x ∷ take n xs

  pub length-take : (n : ℕ) (xs : List A) → length (take n xs) ≡ min n (length xs)
  length-take zero xs = omega arith
  length-take (suc n) [] = omega arith
  length-take (suc n) (x ∷ xs) = omega (arith, length-take n xs)

  -- `[x for x in xs if p(x)]`
  unfoldable pub keep : (A → Bool) → List A → List A
  keep p [] = []
  keep p (x ∷ xs) = let rest = keep p xs in if p x then x ∷ rest else rest

  -- `sum(1 for x in xs if p(x))`
  unfoldable pub count : (A → Bool) → List A → ℕ
  count p [] = 0
  count p (x ∷ xs) = (if p x then 1 else 0) + count p xs

  unfoldable pub any : (A → Bool) → List A → Bool
  any p [] = false
  any p (x ∷ xs) = p x || any p xs

  unfoldable pub all : (A → Bool) → List A → Bool
  all p [] = true
  all p (x ∷ xs) = p x && all p xs

  -- every item meets the predicate
  abbrev pub All {κ} : (A → Type κ) → List A → Type κ
  All P [] = Unit
  All P (x ∷ xs) = P x × All P xs

  pub length-keep : (p : A → Bool) (xs : List A) → length (keep p xs) ≡ count p xs
  unfolding keep count
  length-keep p [] = refl
  length-keep p (x ∷ xs) = ground (arith, length-keep p xs)

  pub count-le-length : (p : A → Bool) (xs : List A) → count p xs ≤ length xs
  unfolding count
  count-le-length p [] = omega arith
  count-le-length p (x ∷ xs) = ground (arith, count-le-length p xs)

  pub count-append : (p : A → Bool) (xs ys : List A) → count p (xs ++ ys) ≡ count p xs + count p ys
  unfolding count
  count-append p [] ys = omega arith
  count-append p (x ∷ xs) ys = omega (arith, count-append p xs ys)

  -- a stronger test holds of no more items
  pub count_mono :
      (p q : A → Bool) (xs : List A) → ((x : A) → p x ≡ true → q x ≡ true) → count p xs ≤ count q xs
  unfolding count
  count_mono p q [] h = omega arith
  count_mono p q (x ∷ xs) h = ground (arith, count_mono p q xs h, h x)

  pub All-append {κ} : (P : A → Type κ) (xs ys : List A) → All P xs → All P ys → All P (xs ++ ys)
  All-append P [] ys h k = k
  All-append P (x ∷ xs) ys h k = (h.0, All-append P xs ys h.1 k)

  pub All-weaken {κ μ} :
      (P : A → Type κ) (Q : A → Type μ) (xs : List A) → ((x : A) → P x → Q x) → All P xs → All Q xs
  All-weaken P Q [] f h = tt
  All-weaken P Q (x ∷ xs) f h = (f x h.0, All-weaken P Q xs f h.1)

  pub All-keep {κ} : (P : A → Type κ) (p : A → Bool) (xs : List A) → All P xs → All P (keep p xs)
  unfolding keep
  All-keep P p [] h = tt
  All-keep P p (x ∷ xs) h = elim (Bool-cases (p x)) [
    | inl e ↦ rw e (h.0, All-keep P p xs h.1)
    | inr e ↦ rw e (All-keep P p xs h.1)
  ]

  -- what is kept meets the test
  pub All-kept : (p : A → Bool) (xs : List A) → All (λ x. p x ≡ true) (keep p xs)
  unfolding keep
  All-kept p [] = tt
  All-kept p (x ∷ xs) = elim (Bool-cases (p x)) [
    | inl e ↦ rw e (e, All-kept p xs)
    | inr e ↦ rw e (All-kept p xs)
  ]

-- `x in xs`
module _ {ℓ} {A : Type ℓ} ⦃e : Comparable A⦄ where
  unfoldable pub contains : List A → A → Bool
  contains [] a = false
  contains (x ∷ xs) a = a == x || contains xs a

  pub contains-append :
      (xs ys : List A) (a : A) → contains (xs ++ ys) a ≡ (contains xs a || contains ys a)
  unfolding contains
  contains-append [] ys a = refl
  contains-append (x ∷ xs) ys a = ground (arith, contains-append xs ys a)

  -- what holds of every item holds of one that is there
  pub All-contains {κ} :
      (P : A → Type κ) (xs : List A) (a : A) → All P xs → contains xs a ≡ true → P a
  unfolding contains
  All-contains P [] a h k = absurd (cc)
  All-contains P (x ∷ xs) a h k = elim (Bool-cases (a == x)) [
    | inl here ↦ subst P (sym ((e.same_iff a x).0 here)) h.0
    | inr later ↦ All-contains P xs a h.1 (rw later at k)
  ]

  -- every item is there
  pub All-self : (xs : List A) → All (λ x. contains xs x ≡ true) xs
  unfolding contains
  All-self [] = tt
  All-self (x ∷ xs) = (
    ground (arith, e.same_iff x x),
    All-weaken (λ y. contains xs y ≡ true) (λ y. contains (x ∷ xs) y ≡ true) xs
        (λ y h. ground (arith, h)) (All-self xs),
  )

  -- `if a not in xs: xs.append(a)`
  unfoldable pub append_once : List A → A → List A
  append_once xs a = if contains xs a then xs else xs ++ a ∷ []

  pub contains-append_once :
      (xs : List A) (b a : A) → contains (append_once xs b) a ≡ (contains xs a || b == a)
  unfolding append_once contains
  contains-append_once xs b a =
      ground (arith, contains-append xs (b ∷ []) a, e.same_iff b a, e.same_iff a b)

  -- every item stands once
  abbrev pub IsOnce : List A → Type 0
  IsOnce [] = Unit
  IsOnce (x ∷ xs) = (contains xs x ≡ false) × IsOnce xs

  pub IsOnce-snoc :
      (xs : List A) (a : A) → IsOnce xs → contains xs a ≡ false → IsOnce (xs ++ a ∷ [])
  unfolding contains
  IsOnce-snoc [] a h k = (refl, tt)
  IsOnce-snoc (x ∷ xs) a h k = (
    ground (arith, h.0, k, contains-append xs (a ∷ []) x, e.same_iff x a, e.same_iff a x),
    IsOnce-snoc xs a h.1 (ground (arith, k)),
  )

  pub IsOnce-append_once : (xs : List A) (a : A) → IsOnce xs → IsOnce (append_once xs a)
  unfolding append_once
  IsOnce-append_once xs a h = elim (Bool-cases (contains xs a)) [
    | inl k ↦ rw k h
    | inr k ↦ rw k (IsOnce-snoc xs a h k)
  ]

  -- `==` on lists
  abbrev pub list_beq : List A → List A → Bool
  list_beq [] [] = true
  list_beq [] (y ∷ ys) = false
  list_beq (x ∷ xs) [] = false
  list_beq (x ∷ xs) (y ∷ ys) = x == y && list_beq xs ys

  pub list_beq_iff : (xs ys : List A) → (list_beq xs ys ≡ true) ↔ (xs ≡ ys)
  list_beq_iff [] [] = (λ h. refl, λ h. refl)
  list_beq_iff [] (y ∷ ys) = (λ h. cc, λ h. cc)
  list_beq_iff (x ∷ xs) [] = (λ h. cc, λ h. cc)
  list_beq_iff (x ∷ xs) (y ∷ ys) = (
    λ h. ground (arith, e.same_iff x y, list_beq_iff xs ys),
    λ h. ground (arith, e.same_iff x y, list_beq_iff xs ys),
  )

  instance abbrev pub list_eq : Comparable (List A)
  list_eq = record { same = list_beq; same_iff = list_beq_iff }
