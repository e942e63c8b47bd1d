-- ===== src/Context/Ordering.antt =====
-- How `lost_in_the_middle` of dealfinder/context.py orders the deals.
use tutorial_dealfinder.Base.{
  ℕ, suc, ◌+◌, ◌%◌, ◌≡◌, Bool, List, [], ◌∷◌, ◌++◌, nat_beq, count, count-append, arith, Bool-cases,
  inl, inr, refl, append_assoc, ap, sym,
}
use tutorial_dealfinder.Context.{deal_out, reversed, lost_in_the_middle}

module _ {Item : Type 0} where
  count-reversed : (q : Item → Bool) (items : List Item) → count q (reversed items) ≡ count q items
  unfolding reversed count
  count-reversed q [] = refl
  count-reversed q (it ∷ items) =
      omega (arith, count-reversed q items, count-append q (reversed items) (it ∷ []))

  count-deal_out :
      (q : Item → Bool) (i : ℕ) (items : List Item)
      → let (head, tail) = deal_out i items in count q head + count q tail ≡ count q items
  unfolding deal_out count
  count-deal_out q i [] = refl
  count-deal_out q i (it ∷ items) = elim (Bool-cases (nat_beq (i % 2) 0)) [
    | inl e ↦ rw e (omega (arith, count-deal_out q (suc i) items))
    | inr e ↦ rw e (omega (arith, count-deal_out q (suc i) items))
  ]

  -- `lost_in_the_middle` only reorders the deals, and where there are at least two, the first leads
  -- and the second comes last, with the others between them.
  pub lost_in_the_middle_lem :
      (first second : Item) (items : List Item)
      → ((q : Item → Bool) (all : List Item) → count q (lost_in_the_middle all) ≡ count q all)
        × ((middle : List Item) × (lost_in_the_middle (first ∷ second ∷ items)
              ≡ first ∷ (middle ++ second ∷ [])))
  unfolding lost_in_the_middle deal_out reversed
  lost_in_the_middle_lem first second items = (
    λ q all. omega (
      arith,
      count-append q (deal_out 0 all).0 (reversed (deal_out 0 all).1),
      count-reversed q (deal_out 0 all).1,
      count-deal_out q 0 all,
    ),
    (
      (deal_out 2 items).0 ++ reversed (deal_out 2 items).1,
      ap (λ l. first ∷ l)
          (sym (append_assoc (deal_out 2 items).0 (reversed (deal_out 2 items).1) (second ∷ []))),
    ),
  )
