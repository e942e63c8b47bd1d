-- ===== src/Sources/Bestbuy/Slices.antt =====
-- The slices of `lookup_skus` of dealfinder/live_sources.py, and the SKUs it asks for.
use tutorial_dealfinder.Base.{
  ◌-◌, ℕ, zero, suc, ◌≤◌, ◌≡◌, refl, ◌∙◌, ap, inl, inr, String, List, [], ◌∷◌, ◌++◌, contains, All,
  take, length, length-take, append_assoc, append-nil, IsOnce, IsOnce-snoc, contains-append,
  string_eq, arith, Bool-cases,
}
use tutorial_dealfinder.Sources.Bestbuy.{distinct_from, drop, batches}

-- the slices, put together
abbrev pub joined : List (List String) → List String
joined [] = []
joined (batch ∷ rest) = batch ++ joined rest

take-drop : (n : ℕ) (xs : List String) → take n xs ++ drop n xs ≡ xs
unfolding drop
take-drop zero xs = refl
take-drop (suc n) [] = refl
take-drop (suc n) (x ∷ xs) = ap (λ ys. x ∷ ys) (take-drop n xs)

length-drop : (n : ℕ) (xs : List String) → length (drop (suc n) xs) ≤ length xs - 1
unfolding drop
length-drop n [] = omega arith
length-drop zero (x ∷ xs) = omega arith
length-drop (suc n) (x ∷ xs) = omega (arith, length-drop n xs)

-- With as much fuel as there are SKUs, the slices hold them all in order, at most 100 in each.
pub batches_lem :
    (fuel : ℕ) (skus : List String)
    → length skus ≤ fuel
    → (joined (batches fuel skus) ≡ skus) × All (λ batch. length batch ≤ 100) (batches fuel skus)
unfolding batches
batches_lem zero [] h = (refl, tt)
batches_lem zero (s ∷ skus) h = absurd (omega arith)
batches_lem (suc fuel) [] h = (refl, tt)
batches_lem (suc fuel) (s ∷ skus) h =
    let (whole, small) =
      batches_lem fuel (drop 100 (s ∷ skus)) (omega (arith, length-drop 99 (s ∷ skus))) in
    (
      rw whole (take-drop 100 (s ∷ skus)),
      (omega (arith, length-take {A = String} 100 (s ∷ skus)), small),
    )

-- every SKU once
pub distinct_from_lem :
    (seen skus : List String)
    → IsOnce seen
    → IsOnce (seen ++ distinct_from seen skus)
      × ((x : String) → contains (seen ++ distinct_from seen skus) x ≡ contains (seen ++ skus) x)
unfolding distinct_from contains
distinct_from_lem seen [] once = (rw (append-nil seen) once, λ x. refl)
distinct_from_lem seen (s ∷ skus) once = elim (Bool-cases (contains seen s)) [
  | inl old ↦
      let (once', same) = distinct_from_lem seen skus once in
      (
        rw old once',
        λ x. rw old (
            ground (
              arith,
              old,
              same x,
              string_eq.same_iff s x,
              string_eq.same_iff x s,
              contains-append seen skus x,
              contains-append seen (s ∷ skus) x,
            )),
      )
  | inr new ↦
      let (once', same) = distinct_from_lem (seen ++ s ∷ []) skus (IsOnce-snoc seen s once new) in
      (
        rw new (rw (← append_assoc seen (s ∷ []) (distinct_from (seen ++ s ∷ []) skus)) once'),
        λ x. rw new (
            rw (← append_assoc seen (s ∷ []) (distinct_from (seen ++ s ∷ []) skus))
              (same x ∙ ap (λ l. contains l x) (append_assoc seen (s ∷ []) skus))),
      )
]
