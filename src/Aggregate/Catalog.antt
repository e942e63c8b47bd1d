-- ===== src/Aggregate/Catalog.antt =====
-- The prices that dealfinder/ingest.py and the exact-key pass of dealfinder/aggregate.py keep, as a
-- function of the products found in no order.
use mathlib.Core.Logic.{∥∥₁_elim}
use mathlib.Core.List.{Perm, Permᴰ}
use mathlib.Core.Option.{is_set}
use mathlib.Core.Quot
use mathlib.Core.Quot.{Quot}
use native.Mathlib.Nat.{ℕ_set}
use tutorial_dealfinder.Base.{
  ℕ, min, ◌≡◌, refl, sym, ap, ◌∙◌, String, true, Option, none, some, List, [], ◌∷◌, ◌++◌, Dict,
  lookup, insert, lookup-insert, string_eq, ◌==◌, if◌then◌else◌, ltb, arith, Option-cases, inl, inr,
}
use tutorial_dealfinder.Aggregate.{
  Product, dedup_key, improves, best_from, best_offers, ingest_from,
}

-- the lower of two prices, of which either may be missing
abbrev pub lower_price : Option ℕ → Option ℕ → Option ℕ
lower_price none b = b
lower_price (some a) none = some a
lower_price (some a) (some b) = some (min a b)

abbrev pub price_in : Option Product → Option ℕ
price_in none = none
price_in (some p) = some p.price

lower_price_assoc :
    (a b c : Option ℕ) → lower_price (lower_price a b) c ≡ lower_price a (lower_price b c)
lower_price_assoc none b c = refl
lower_price_assoc (some a) none c = refl
lower_price_assoc (some a) (some b) none = refl
lower_price_assoc (some a) (some b) (some c) = ap some (omega arith)

lower_price_comm : (a b : Option ℕ) → lower_price a b ≡ lower_price b a
lower_price_comm none none = refl
lower_price_comm none (some b) = refl
lower_price_comm (some a) none = refl
lower_price_comm (some a) (some b) = ap some (omega arith)

lower_price_swap :
    (a b c : Option ℕ) → lower_price a (lower_price b c) ≡ lower_price b (lower_price a c)
lower_price_swap a b c =
    sym (lower_price_assoc a b c)
    ∙ ap (λ d. lower_price d c) (lower_price_comm a b)
    ∙ lower_price_assoc b a c

lower_price-none : (a : Option ℕ) → lower_price a none ≡ a
lower_price-none none = refl
lower_price-none (some a) = refl

abbrev pub joined : List (List Product) → List Product
joined [] = []
joined (products ∷ sources) = products ++ joined sources

module _ (strip low : String → String) where
  -- the price that a product offers under a key
  abbrev pub offer_at : String → Product → Option ℕ
  offer_at k p = if dedup_key strip low p == k then some p.price else none

  -- the lowest price of the products with the key
  abbrev pub lowest : String → List Product → Option ℕ
  lowest k [] = none
  lowest k (p ∷ ps) = lower_price (offer_at k p) (lowest k ps)

  pub lowest-Perm : (k : String) {ps qs : List Product} → Permᴰ ps qs → lowest k ps ≡ lowest k qs
  lowest-Perm k Permᴰ.nil = refl
  lowest-Perm k (Permᴰ.cons e h) = rw (e, lowest-Perm k h) refl
  lowest-Perm k (Permᴰ.swap {a'} {b'} {l} e f) =
      rw (e, f) (lower_price_swap (offer_at k b') (offer_at k a') (lowest k l))
  lowest-Perm k (Permᴰ.trans g h) = lowest-Perm k g ∙ lowest-Perm k h

  -- the products found, in no order
  abbrev pub Unordered : Type 0
  Unordered = Quot (Perm {A = Product})

  -- the lowest price of those with the key
  abbrev pub lowest_price : String → Unordered → Option ℕ
  lowest_price k =
      Quot.lift (is_set ℕ_set) (lowest k) (λ ps qs h. ∥∥₁_elim h (is_set ℕ_set _ _) (lowest-Perm k))

  -- the table after one product
  abbrev after : Dict String Product → Product → Dict String Product
  after best p = if improves strip low best p then insert best (dedup_key strip low p) p else best

  after-lower :
      (best : Dict String Product) (p : Product) (k : String)
      → price_in (lookup (after best p) k) ≡ lower_price (price_in (lookup best k)) (offer_at k p)
  unfolding improves
  after-lower best p k =
      let key = dedup_key strip low p in
      elim (Option-cases (lookup best key)) [
        | inl absent ↦
            let e : improves strip low best p ≡ true = ground (arith, absent) in
            rw e (ground (arith, absent, lookup-insert best key k p, string_eq.same_iff key k))
        | inr (q, here) ↦
            let e : improves strip low best p ≡ ltb p.price q.price = ground (arith, here) in
            rw e (ground (arith, here, lookup-insert best key k p, string_eq.same_iff key k))
      ]

  best_from-lowest :
      (best : Dict String Product) (ps : List Product) (k : String)
      → price_in (lookup (best_from strip low best ps) k)
        ≡ lower_price (price_in (lookup best k)) (lowest k ps)
  unfolding best_from
  best_from-lowest best [] k = sym (lower_price-none (price_in (lookup best k)))
  best_from-lowest best (p ∷ ps) k =
      best_from-lowest (after best p) ps k
      ∙ ap (λ d. lower_price d (lowest k ps)) (after-lower best p k)
      ∙ lower_price_assoc (price_in (lookup best k)) (offer_at k p) (lowest k ps)

  best_from-append :
      (best : Dict String Product) (ps qs : List Product)
      → best_from strip low best (ps ++ qs) ≡ best_from strip low (best_from strip low best ps) qs
  unfolding best_from
  best_from-append best [] qs = refl
  best_from-append best (p ∷ ps) qs = best_from-append (after best p) ps qs

  ingest_from-joined :
      (best : Dict String Product) (sources : List (List Product))
      → ingest_from strip low best sources ≡ best_from strip low best (joined sources)
  unfolding ingest_from best_from
  ingest_from-joined best [] = refl
  ingest_from-joined best (products ∷ sources) =
      ingest_from-joined (best_from strip low best products) sources
      ∙ sym (best_from-append best products (joined sources))

  -- However the sources order their products, and whichever source comes first, `ingest` and the
  -- exact-key pass of `aggregate` keep under each key the lowest price of the products with that key,
  -- and nothing where there is none.
  pub ingest_lem :
      (sources : List (List Product)) (products : List Product) (k : String)
      → Perm (joined sources) products
      → (price_in (lookup (ingest_from strip low [] sources) k) ≡ lowest_price k (Quot.mk products))
        × (price_in (lookup (best_offers strip low products) k) ≡ lowest_price k (Quot.mk products))
  unfolding best_offers lookup
  ingest_lem sources products k same = (
    ap (λ best. price_in (lookup best k)) (ingest_from-joined [] sources)
        ∙ best_from-lowest [] (joined sources) k
        ∙ ap (lowest_price k) (Quot.sound same),
    best_from-lowest [] products k,
  )
