-- ===== src/Aggregate/Cheapest.antt =====
-- The exact-key pass of dealfinder/aggregate.py keeps the cheapest offer.
use mathlib.Core.List.{Mem, mem-cons_self, mem-cons_of_mem}
use tutorial_dealfinder.Base.{
  All-weaken, ◌≤◌, ◌≡◌, String, true, none, some, List, [], ◌∷◌, ltb, if◌then◌else◌, All, Dict,
  lookup, insert, lookup-insert, lookup-insert_self, subst, ap, ◌∙◌, string_eq, ◌==◌, arith,
  Bool-cases, Option-cases, inl, inr,
}
use tutorial_dealfinder.Aggregate.{Product, dedup_key, improves, best_from, best_offers}

All-Mem : (ps : List Product) → All (λ q. Mem q ps) ps
All-Mem [] = tt
All-Mem (p ∷ ps) = (
  mem-cons_self,
  All-weaken (λ q. Mem q ps) (λ q. Mem q (p ∷ ps)) ps (λ q h. mem-cons_of_mem p h) (All-Mem ps),
)

module _ (strip lower : String → String) where
  -- the table offers something under the product's key, at the product's price or less
  abbrev pub Offers : Dict String Product → Product → Type 0
  Offers best p =
      (q : Product) × ((lookup best (dedup_key strip lower p) ≡ some q) × (q.price ≤ p.price))

  -- the table after one product
  abbrev pub after : Dict String Product → Product → Dict String Product
  after best p =
      if improves strip lower best p then insert best (dedup_key strip lower p) p else best

  better :
      (best : Dict String Product) (p q : Product)
      → lookup best (dedup_key strip lower p) ≡ some q
      → improves strip lower best p ≡ ltb p.price q.price
  unfolding improves
  better best p q h = ground (arith, h)

  new :
      (best : Dict String Product) (p : Product)
      → lookup best (dedup_key strip lower p) ≡ none
      → improves strip lower best p ≡ true
  unfolding improves
  new best p h = ground (arith, h)

  stored :
      (best : Dict String Product) (p : Product)
      → Offers (insert best (dedup_key strip lower p) p) p
  stored best p = (p, (lookup-insert_self best (dedup_key strip lower p) p, omega arith))

  after-this : (best : Dict String Product) (p : Product) → Offers (after best p) p
  after-this best p = elim (Bool-cases (improves strip lower best p)) [
    | inl e ↦ rw e (stored best p)
    | inr e ↦ rw e (elim (Option-cases (lookup best (dedup_key strip lower p))) [
      | inl absent ↦ ground (arith, e, new best p absent)
      | inr (q, here) ↦ (q, (here, ground (arith, e, better best p q here)))
    ])
  ]

  after-keeps :
      (best : Dict String Product) (p r : Product) → Offers best r → Offers (after best p) r
  after-keeps best p r (q, (here, cheap)) =
      let k = dedup_key strip lower p in
      elim (Bool-cases (improves strip lower best p)) [
        | inr e ↦ rw e (q, (here, cheap))
        | inl e ↦ rw e (elim (Bool-cases (k == dedup_key strip lower r)) [
          | inl same ↦ (
            p,
            (
              ground (arith, same, lookup-insert best k (dedup_key strip lower r) p),
              ground (
                arith,
                e,
                cheap,
                better best p q (
                    ap (lookup best) ((string_eq.same_iff k (dedup_key strip lower r)).0 same)
                    ∙ here),
              ),
            ),
          )
          | inr other ↦ (
            q,
            (ground (arith, other, here, lookup-insert best k (dedup_key strip lower r) p), cheap),
          )
        ])
      ]

  pub best_from-Offers :
      (best : Dict String Product) (ps : List Product) (r : Product)
      → Offers best r
      → Offers (best_from strip lower best ps) r
  unfolding best_from
  best_from-Offers best [] r h = h
  best_from-Offers best (p ∷ ps) r h = best_from-Offers (after best p) ps r (after-keeps best p r h)

  pub All-Offers :
      (best : Dict String Product) (ps : List Product)
      → All (λ p. Offers (best_from strip lower best ps) p) ps
  unfolding best_from
  All-Offers best [] = tt
  All-Offers best (p ∷ ps) =
      (best_from-Offers (after best p) ps p (after-this best p), All-Offers (after best p) ps)

  -- what is stored under a key is a product with that key, and has what all products have
  abbrev Stored : (Product → Type 0) → Dict String Product → Type 0
  Stored P best =
      (k : String) (q : Product) → lookup best k ≡ some q → (dedup_key strip lower q ≡ k) × P q

  after-Stored :
      (P : Product → Type 0) (best : Dict String Product) (p : Product)
      → P p
      → Stored P best
      → Stored P (after best p)
  after-Stored P best p h s k q found = elim (Bool-cases (improves strip lower best p)) [
    | inr e ↦ s k q (rw e at found)
    | inl e ↦
        let written : lookup (insert best (dedup_key strip lower p) p) k ≡ some q =
          (rw e at found) in
        elim (Bool-cases (dedup_key strip lower p == k)) [
          | inl same ↦
              let it : p ≡ q =
                ground (arith, written, same, lookup-insert best (dedup_key strip lower p) k p) in
              subst (λ r. (dedup_key strip lower r ≡ k) × P r) it
                ((string_eq.same_iff (dedup_key strip lower p) k).0 same, h)
          | inr other ↦
              s k q
                (ground (arith, written, other, lookup-insert best (dedup_key strip lower p) k p))
        ]
  ]

  best_from-Stored :
      (P : Product → Type 0) (best : Dict String Product) (ps : List Product)
      → All P ps
      → Stored P best
      → Stored P (best_from strip lower best ps)
  unfolding best_from
  best_from-Stored P best [] h s = s
  best_from-Stored P best (p ∷ ps) h s =
      best_from-Stored P (after best p) ps h.1 (after-Stored P best p h.0 s)

  -- For every product found, the table that the exact-key pass builds holds an offer under the
  -- product's key that costs no more; and whatever it holds under a key is one of the products found
  -- and has that key.
  pub best_offers_lem :
      (ps : List Product)
      → let best = best_offers strip lower ps in
        All
          (λ p.
            (q : Product) × ((lookup best (dedup_key strip lower p) ≡ some q)
              × (q.price ≤ p.price)))
          ps
        × ((k : String) (q : Product)
            → lookup best k ≡ some q
            → (dedup_key strip lower q ≡ k) × Mem q ps)
  unfolding best_offers lookup
  best_offers_lem ps = (
    All-Offers [] ps,
    best_from-Stored (λ q. Mem q ps) [] ps (All-Mem ps) (λ k q found. ground (arith, found)),
  )
