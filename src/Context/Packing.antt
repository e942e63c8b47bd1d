-- ===== src/Context/Packing.antt =====
-- What `pack_deals` of dealfinder/context.py packs.
use tutorial_dealfinder.Base.{
  ℕ, ◌+◌, ◌≤◌, ◌<◌, ◌≡◌, Bool, List, [], ◌∷◌, leb, All, count, arith, Bool-cases, inl, inr, refl,
}
use tutorial_dealfinder.Context.{Packed, pack_from, pack_deals}

module _ {Item : Type 0} (cost : Item → ℕ) where
  -- the tokens of some deals
  unfoldable pub total : List Item → ℕ
  total [] = 0
  total (it ∷ items) = cost it + total items

  record IsPacked (budget used : ℕ) (items : List Item) (p : Packed Item) : Type 0 where
    spent : p.tokens ≡ used + total p.included
    within : p.tokens ≤ budget
    full : All (λ d. budget < p.tokens + cost d) p.dropped
    split : (q : Item → Bool) → count q p.included + count q p.dropped ≡ count q items

  pack_from-IsPacked :
      (budget used : ℕ) (items : List Item)
      → used ≤ budget
      → IsPacked budget used items (pack_from cost budget used items)
  unfolding pack_from total count
  pack_from-IsPacked budget used [] h = record {
    spent = omega arith;
    within = h;
    full = tt;
    split = λ q. refl;
  }
  pack_from-IsPacked budget used (it ∷ items) h = elim (Bool-cases (leb (used + cost it) budget)) [
    | inl e ↦
        let ih = pack_from-IsPacked budget (used + cost it) items (ground (arith, e)) in
        rw e (record {
          spent = omega (arith, ih.spent);
          within = ih.within;
          full = ih.full;
          split = λ q. omega (arith, ih.split q);
        })
    | inr e ↦
        let ih = pack_from-IsPacked budget used items h in
        rw e (record {
          spent = ih.spent;
          within = ih.within;
          full = (ground (arith, e, ih.spent), ih.full);
          split = λ q. omega (arith, ih.split q);
        })
  ]

  -- `pack_deals` splits the deals into those included and those dropped, nothing lost or added; the
  -- tokens it reports are those of the included deals and never exceed the budget; and no dropped
  -- deal, whatever its rank, would still fit beside the included ones.
  pub pack_deals_lem :
      (items : List Item) (budget : ℕ)
      → let p = pack_deals cost items budget in
        (p.tokens ≡ total p.included)
        × (p.tokens ≤ budget)
        × All (λ d. budget < p.tokens + cost d) p.dropped
        × ((q : Item → Bool) → count q p.included + count q p.dropped ≡ count q items)
  unfolding pack_deals
  pack_deals_lem items budget =
      let h = pack_from-IsPacked budget 0 items (omega arith) in
      (omega (arith, h.spent), h.within, h.full, h.split)
