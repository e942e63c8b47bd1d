-- ===== src/Dedup/Brand.antt =====
-- Every cluster of dealfinder/dedup.py is of one manufacturer.
use mathlib.Core.List.{Memᴰ}
use tutorial_dealfinder.Base.{
  ℕ, suc, ◌<◌, ◌≡◌, String, true, List, [], ◌∷◌, map, keep, All, All-weaken, All-append, lookup,
  IsDict, All-lookup, Option, some, none, string_eq, nat_eq, arith, refl, sym, ap, ◌∙◌, Bool-cases,
  inl, inr,
}
use tutorial_dealfinder.Aggregate.{Product}
use tutorial_dealfinder.Dedup.{enumerate, first_token, same_product, linked_pairs}
use tutorial_dealfinder.Dedup.Gathered.{Item}
use tutorial_dealfinder.Dedup.Placed.{All-at}
use tutorial_dealfinder.Dedup.Clusters.{Linked, Linked-eq, pairs_of}

enumerate-before : (i j : ℕ) (items : List Product) → j < i → lookup (enumerate i items) j ≡ none
unfolding enumerate lookup
enumerate-before i j [] less = refl
enumerate-before i j (p ∷ items) less =
    ground (arith, enumerate-before (suc i) j items (omega arith), nat_eq.same_iff i j)

enumerate-IsDict : (i : ℕ) (items : List Product) → IsDict (enumerate i items)
unfolding enumerate
enumerate-IsDict i [] = tt
enumerate-IsDict i (p ∷ items) =
    (enumerate-before (suc i) i items (omega arith), enumerate-IsDict (suc i) items)

module _ (tokens : String → List String) (sim : ℕ → ℕ → ℕ)
    (sim_threshold no_model_threshold : ℕ) where
  -- the manufacturer of an item
  abbrev pub brand : Item → String
  brand x = first_token tokens sim sim_threshold no_model_threshold x.1.title

  same_product-brand :
      (x y : Item)
      → same_product tokens sim sim_threshold no_model_threshold x y ≡ true
      → brand x ≡ brand y
  unfolding same_product
  same_product-brand x y h = ground (arith, h, string_eq.same_iff (brand x) (brand y))

  module _ (brand_at : ℕ → String) where
    pairs-brand :
        (x : Item) (items : List Item)
        → brand_at x.0 ≡ brand x
        → All (λ y. brand_at y.0 ≡ brand y) items
        → All
            (λ (c : ℕ × ℕ). brand_at c.0 ≡ brand_at c.1)
            (map
              (λ y. (x.0, y.0))
              (keep (λ y. same_product tokens sim sim_threshold no_model_threshold x y) items))
    unfolding keep
    pairs-brand x [] here h = tt
    pairs-brand x (y ∷ items) here h =
        elim (Bool-cases (same_product tokens sim sim_threshold no_model_threshold x y)) [
          | inl e ↦ rw e (here ∙ same_product-brand x y e ∙ sym h.0, pairs-brand x items here h.1)
          | inr e ↦ rw e (pairs-brand x items here h.1)
        ]

    linked_pairs-brand :
        (items : List Item)
        → All (λ y. brand_at y.0 ≡ brand y) items
        → All
            (λ (c : ℕ × ℕ). brand_at c.0 ≡ brand_at c.1)
            (linked_pairs tokens sim sim_threshold no_model_threshold items)
    unfolding linked_pairs
    linked_pairs-brand [] h = tt
    linked_pairs-brand (x ∷ items) h =
        All-append (λ c. brand_at c.0 ≡ brand_at c.1) _ _ (pairs-brand x items h.0 h.1)
          (linked_pairs-brand items h.1)

  -- linked items are of one manufacturer
  pub Linked-brand :
      (items : List Product) (x y : Item)
      → Memᴰ x (enumerate 0 items)
      → Memᴰ y (enumerate 0 items)
      → Linked (pairs_of tokens sim sim_threshold no_model_threshold items) x.0 y.0
      → brand x ≡ brand y
  Linked-brand items x y mx my l =
      let xs = enumerate 0 items in
      let brand_of : Option Product → String = λ found. elim found [
        | none ↦ ""
        | some p ↦ first_token tokens sim sim_threshold no_model_threshold p.title
      ] in
      let brand_at : ℕ → String = λ i. brand_of (lookup xs i) in
      let brands : All (λ z. brand_at z.0 ≡ brand z) xs =
        All-weaken (λ z. lookup xs z.0 ≡ some z.1) (λ z. brand_at z.0 ≡ brand z) xs
          (λ z h. ap brand_of h) (All-lookup xs (enumerate-IsDict 0 items)) in
      sym (All-at (λ z. brand_at z.0 ≡ brand z) xs brands mx)
      ∙ Linked-eq _ brand_at x.0 y.0 (linked_pairs-brand brand_at xs brands) l
      ∙ All-at (λ z. brand_at z.0 ≡ brand z) xs brands my
