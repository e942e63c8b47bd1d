-- ===== src/Aggregate/Undercut.antt =====
-- No store undercuts the reply of dealfinder/aggregate.py.
use mathlib.Core.List.{Mem, Memᴰ}
use mathlib.Core.List.Memᴰ.{head, tail}
use tutorial_dealfinder.Base.{
  take, sort, ℕ, suc, ◌≤◌, ◌≡◌, String, List, [], ◌∷◌, map, All, All-weaken, All-sort, All-take,
  Dict, lookup, IsDict, insert-IsDict, All-lookup, string_eq, ◌==◌, some, length, length-take,
  arith, sym, ap, subst, Bool-cases, inl, inr,
}
use tutorial_dealfinder.Aggregate.{
  sort, Product, Source, World, gather, dedup_key, improves, best_from, best_offers,
}
use tutorial_dealfinder.Aggregate.Cheapest.{after, best_offers_lem}
use tutorial_dealfinder.Aggregate.Ranked.{
  by_price, IsRanked, Undercuts, sort-IsRanked, take-IsRanked, sort-Mem, take-Undercuts,
}
use tutorial_dealfinder.Aggregate.Reply.{
  sim_threshold, no_model_threshold, items, ranked, aggregate,
}
use tutorial_dealfinder.Dedup.{enumerate}
use tutorial_dealfinder.Dedup.Gathered.{Item}
use tutorial_dealfinder.Dedup.Placed.{All-at}
use tutorial_dealfinder.Dedup.Kept.{dedup_by_embedding_lem}

lookup-Mem :
    (best : Dict String Product) (k : String) (q : Product)
    → lookup best k ≡ some q
    → Memᴰ q (map (λ e. e.1) best)
unfolding lookup
lookup-Mem [] k q h = absurd (ground (arith, h))
lookup-Mem ((j, p) ∷ best) k q h = elim (Bool-cases (j == k)) [
  | inl e ↦ head (sym (ground (arith, h, e)))
  | inr e ↦ tail (lookup-Mem best k q (ground (arith, h, e)))
]

enumerate-Mem :
    (i : ℕ) (ps : List Product) (q : Product)
    → Memᴰ q ps
    → (j : ℕ) × Memᴰ {A = Item} (j, q) (enumerate i ps)
unfolding enumerate
enumerate-Mem i [] q m = elim m [ ]
enumerate-Mem i (p ∷ ps) q (head same) = (i, head (ap (λ r. (i, r)) same))
enumerate-Mem i (p ∷ ps) q (tail m) =
    let (j, later) = enumerate-Mem (suc i) ps q m in (j, tail later)

enumerate-All :
    (P : Product → Type 0) (i : ℕ) (ps : List Product)
    → All P ps
    → All (λ (x : Item). P x.1) (enumerate i ps)
unfolding enumerate
enumerate-All P i [] h = tt
enumerate-All P i (p ∷ ps) h = (h.0, enumerate-All P (suc i) ps h.1)

products-Mem : (y : Item) (kept : List Item) → Memᴰ y kept → Memᴰ y.1 (map (λ x. x.1) kept)
products-Mem y [] m = elim m [ ]
products-Mem y (x ∷ kept) (head same) = head (ap (λ z. z.1) same)
products-Mem y (x ∷ kept) (tail m) = tail (products-Mem y kept m)

products-All :
    (P : Product → Type 0) (kept : List Item) → All (λ x. P x.1) kept → All P (map (λ x. x.1) kept)
products-All P [] h = tt
products-All P (x ∷ kept) h = (h.0, products-All P kept h.1)

values-All :
    (P : Product → Type 0) (best : Dict String Product)
    → All (λ e. P e.1) best
    → All P (map (λ e. e.1) best)
values-All P [] h = tt
values-All P (e ∷ best) h = (h.0, values-All P best h.1)

module _ (strip lower : String → String) where
  after-IsDict :
      (best : Dict String Product) (p : Product) → IsDict best → IsDict (after strip lower best p)
  after-IsDict best p h = elim (Bool-cases (improves strip lower best p)) [
    | inl e ↦ rw e (insert-IsDict best (dedup_key strip lower p) p h)
    | inr e ↦ rw e h
  ]

  best_from-IsDict :
      (best : Dict String Product) (ps : List Product)
      → IsDict best
      → IsDict (best_from strip lower best ps)
  unfolding best_from
  best_from-IsDict best [] h = h
  best_from-IsDict best (p ∷ ps) h =
      best_from-IsDict (after strip lower best p) ps (after-IsDict best p h)

  pub best_offers-IsDict : (ps : List Product) → IsDict (best_offers strip lower ps)
  unfolding best_offers
  best_offers-IsDict ps = best_from-IsDict [] ps tt

  -- every offer is one of the products found
  offers-Mem :
      (ps : List Product) → All (λ q. Mem q ps) (map (λ e. e.1) (best_offers strip lower ps))
  offers-Mem ps =
      let best = best_offers strip lower ps in
      values-All (λ q. Mem q ps) best
        (All-weaken (λ e. lookup best e.0 ≡ some e.1) (λ e. Mem e.1 ps) best
          (λ e h. ((best_offers_lem strip lower ps).1 e.0 e.1 h).1)
          (All-lookup best (best_offers-IsDict ps)))

  module _ (tokens : String → List String) (sim : List Product → ℕ → ℕ → ℕ) where
    items-Mem : (ps : List Product) → All (λ q. Mem q ps) (items strip lower tokens sim ps)
    unfolding items
    items-Mem ps =
        let offers = map (λ e. e.1) (best_offers strip lower ps) in
        let (kept, same, from, apart, covers) =
          dedup_by_embedding_lem tokens (sim offers) sim_threshold no_model_threshold offers in
        subst (All (λ q. Mem q ps)) (sym same) (
          products-All (λ q. Mem q ps) kept
            (All-weaken (λ y. Memᴰ y (enumerate 0 offers)) (λ y. Mem y.1 ps) kept
              (λ y m.
                All-at (λ x. Mem x.1 ps) (enumerate 0 offers)
                  (enumerate-All (λ q. Mem q ps) 0 offers (offers-Mem ps)) m)
              from))

    -- what survives the exact-key pass and the dedup in a product's place
    abbrev Survives : List Product → Product → Type 0
    Survives ps p = (q : Product) × Memᴰ q (items strip lower tokens sim ps) × (q.price ≤ p.price)

    survivor :
        (ps : List Product) (q : Product)
        → Memᴰ q (map (λ e. e.1) (best_offers strip lower ps))
        → Survives ps q
    unfolding items
    survivor ps q m =
        let offers = map (λ e. e.1) (best_offers strip lower ps) in
        let (kept, same, from, apart, covers) =
          dedup_by_embedding_lem tokens (sim offers) sim_threshold no_model_threshold offers in
        let (j, at) = enumerate-Mem 0 offers q m in
        let (y, in_kept, link, less, brand) = All-at _ (enumerate 0 offers) covers at in
        (y.1, subst (λ l. Memᴰ y.1 l) (sym same) (products-Mem y kept in_kept), less)

    All-Survives : (ps : List Product) → All (Survives ps) ps
    All-Survives ps =
        let best = best_offers strip lower ps in
        let IsOffered : Product → Type 0 = λ p.
          (q : Product) × ((lookup best (dedup_key strip lower p) ≡ some q)
            × (q.price ≤ p.price)) in
        All-weaken IsOffered (Survives ps) ps
          (λ p h.
            let (r, m, less) =
              survivor ps h.0 (lookup-Mem best (dedup_key strip lower p) h.0 h.1.0) in
            (r, m, omega (arith, less, h.1.1)))
          (best_offers_lem strip lower ps).0

    ranked_lem :
        (limit : ℕ) (ps : List Product)
        → All (λ q. Mem q ps) (ranked strip lower tokens sim limit ps)
          × IsRanked (ranked strip lower tokens sim limit ps)
    unfolding ranked
    ranked_lem limit ps =
        let xs = items strip lower tokens sim ps in
        (
          All-take (λ q. Mem q ps) limit (sort by_price xs)
              (All-sort (λ q. Mem q ps) by_price xs (items-Mem ps)),
          take-IsRanked limit (sort by_price xs) (sort-IsRanked xs),
        )

    length-ranked-le :
        (limit : ℕ) (ps : List Product) → length (ranked strip lower tokens sim limit ps) ≤ limit
    unfolding ranked
    length-ranked-le limit ps =
        omega (arith, length-take limit (sort by_price (items strip lower tokens sim ps)))

    ranked-Undercuts :
        (n : ℕ) (ps : List Product) → All (Undercuts (ranked strip lower tokens sim (suc n) ps)) ps
    unfolding ranked
    ranked-Undercuts n ps =
        let xs = items strip lower tokens sim ps in
        All-weaken (Survives ps) (Undercuts (take (suc n) (sort by_price xs))) ps
          (λ p h.
            let (q, rest, same, less) =
              take-Undercuts n h.0 (sort by_price xs) (sort-IsRanked xs) (sort-Mem h.0 xs h.1) in
            (q, rest, same, omega (arith, less, h.2)))
          (All-Survives ps)

    -- `aggregate` invents no product, ranks its results by price within the limit, and loses no best
    -- price to its two dedup passes or to the cut at the limit: where the limit is not zero, the
    -- first result costs no more than any product that any store found.
    pub aggregate_lem :
        (w : World) (cooldown : Dict String ℕ) (sources : List Source) (n target : ℕ)
        → let found = (gather strip lower w cooldown sources target).1.products in
          let reply = aggregate strip lower tokens sim w cooldown sources (suc n) target in
          All (λ q. Mem q found) reply.results
          × IsRanked reply.results
          × (reply.count ≤ suc n)
          × All (Undercuts reply.results) found
    unfolding aggregate
    aggregate_lem w cooldown sources n target =
        let found = (gather strip lower w cooldown sources target).1.products in
        let (from, order) = ranked_lem (suc n) found in
        (from, order, length-ranked-le (suc n) found, ranked-Undercuts n found)
