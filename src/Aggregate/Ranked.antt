-- ===== src/Aggregate/Ranked.antt =====
-- Lists of dealfinder/aggregate.py sorted by price.
use mathlib.Core.List.{Memᴰ}
use mathlib.Core.List.Memᴰ.{head, tail}
use tutorial_dealfinder.Base.{
  ℕ, zero, suc, ◌≤◌, ◌≡◌, Bool, List, [], ◌∷◌, All, All-weaken, leb, sort, insert_sorted, take,
  All-insert_sorted, All-take, arith, refl, Bool-cases, inl, inr, subst, sym,
}
use tutorial_dealfinder.Aggregate.{Product}
use tutorial_dealfinder.Dedup.Placed.{All-at}

-- `key=lambda p: p.price`
abbrev pub by_price : Product → Product → Bool
by_price p q = leb p.price q.price

-- no product is dearer than a later one
abbrev pub IsRanked : List Product → Type 0
IsRanked [] = Unit
IsRanked (p ∷ ps) = All (λ q. p.price ≤ q.price) ps × IsRanked ps

insert_sorted-IsRanked :
    (p : Product) (ps : List Product) → IsRanked ps → IsRanked (insert_sorted by_price p ps)
unfolding insert_sorted
insert_sorted-IsRanked p [] h = (tt, tt)
insert_sorted-IsRanked p (q ∷ ps) h = elim (Bool-cases (by_price p q)) [
  | inl e ↦
      let less : p.price ≤ q.price = (ground (arith, e)) in
      rw e (
        (
          less,
          All-weaken (λ r. q.price ≤ r.price) (λ r. p.price ≤ r.price) ps
              (λ r k. omega (arith, k, less)) h.0,
        ),
        h,
      )
  | inr e ↦ rw e (
    All-insert_sorted (λ r. q.price ≤ r.price) by_price p ps (ground (arith, e)) h.0,
    insert_sorted-IsRanked p ps h.1,
  )
]

pub sort-IsRanked : (ps : List Product) → IsRanked (sort by_price ps)
unfolding sort
sort-IsRanked [] = tt
sort-IsRanked (p ∷ ps) = insert_sorted-IsRanked p (sort by_price ps) (sort-IsRanked ps)

pub take-IsRanked : (n : ℕ) (ps : List Product) → IsRanked ps → IsRanked (take n ps)
take-IsRanked zero ps h = tt
take-IsRanked (suc n) [] h = tt
take-IsRanked (suc n) (p ∷ ps) h =
    (All-take (λ q. p.price ≤ q.price) n ps h.0, take-IsRanked n ps h.1)

insert_sorted-first : (p : Product) (ps : List Product) → Memᴰ p (insert_sorted by_price p ps)
unfolding insert_sorted
insert_sorted-first p [] = head refl
insert_sorted-first p (q ∷ ps) = elim (Bool-cases (by_price p q)) [
  | inl e ↦ rw e (head refl)
  | inr e ↦ rw e (tail (insert_sorted-first p ps))
]

insert_sorted-Mem :
    (p q : Product) (ps : List Product) → Memᴰ q ps → Memᴰ q (insert_sorted by_price p ps)
unfolding insert_sorted
insert_sorted-Mem p q [] m = elim m [ ]
insert_sorted-Mem p q (r ∷ ps) m = elim (Bool-cases (by_price p r)) [
  | inl e ↦ rw e (tail m)
  | inr e ↦
      rw e (elim m [ head same ↦ head same | tail later ↦ tail (insert_sorted-Mem p q ps later) ])
]

pub sort-Mem : (q : Product) (ps : List Product) → Memᴰ q ps → Memᴰ q (sort by_price ps)
unfolding sort
sort-Mem q [] m = m
sort-Mem q (p ∷ ps) (head same) =
    subst (λ r. Memᴰ r (insert_sorted by_price p (sort by_price ps))) (sym same)
      (insert_sorted-first p (sort by_price ps))
sort-Mem q (p ∷ ps) (tail m) = insert_sorted-Mem p q (sort by_price ps) (sort-Mem q ps m)

-- the list starts with a product that costs no more
abbrev pub Undercuts : List Product → Product → Type 0
Undercuts ps q =
    (first : Product) × (rest : List Product) × (ps ≡ first ∷ rest) × (first.price ≤ q.price)

pub take-Undercuts :
    (n : ℕ) (q : Product) (ps : List Product)
    → IsRanked ps
    → Memᴰ q ps
    → Undercuts (take (suc n) ps) q
take-Undercuts n q [] h m = elim m [ ]
take-Undercuts n q (p ∷ ps) h m =
    (p, take n ps, refl, All-at (λ r. p.price ≤ r.price) (p ∷ ps) (omega arith, h.0) m)
