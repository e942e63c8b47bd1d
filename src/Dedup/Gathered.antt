-- ===== src/Dedup/Gathered.antt =====
-- The clusters of dealfinder/dedup.py with the indices of the items kept, and the pick of the cheapest.
use mathlib.Core.List.{Memᴰ}
use mathlib.Core.List.Memᴰ.{head, tail}
use tutorial_dealfinder.Base.{
  ℕ, ◌≤◌, ◌≡◌, ◌⊎◌, true, false, List, [], ◌∷◌, ◌++◌, map, All, Dict, lookup, insert, get_or,
  nat_eq, ltb, if◌then◌else◌, arith, refl, sym, ap, ◌∙◌, Bool-cases, inl, inr, subst, ◌==◌,
}
use tutorial_dealfinder.Aggregate.{Product}
use tutorial_dealfinder.Dedup.Forest.{Parent, find}
use tutorial_dealfinder.Dedup.Forest.Roots.{Implements, find_lem}
use tutorial_dealfinder.Dedup.{cheapest, keep_cheapest, cluster_items}

-- an item with its index
abbrev pub Item : Type 0
Item = ℕ × Product

abbrev pub products : List Item → List Product
products xs = map (λ x. x.1) xs

-- the first of the cheapest, with its index
unfoldable pub pick : Item → List Item → Item
pick best [] = best
pick best (x ∷ xs) = if ltb x.1.price best.1.price then pick x xs else pick best xs

pick-cheapest : (x : Item) (xs : List Item) → (pick x xs).1 ≡ cheapest x.1 (products xs)
unfolding pick cheapest
pick-cheapest best [] = refl
pick-cheapest best (x ∷ xs) = elim (Bool-cases (ltb x.1.price best.1.price)) [
  | inl e ↦ rw e (pick-cheapest x xs)
  | inr e ↦ rw e (pick-cheapest best xs)
]

pub pick-Mem : (x : Item) (xs : List Item) → Memᴰ (pick x xs) (x ∷ xs)
unfolding pick
pick-Mem best [] = head refl
pick-Mem best (x ∷ xs) = elim (Bool-cases (ltb x.1.price best.1.price)) [
  | inl e ↦ rw e (tail (pick-Mem x xs))
  | inr e ↦ rw e (elim (pick-Mem best xs) [ head h ↦ head h | tail m ↦ tail (tail m) ])
]

pick-cons :
    (best x : Item) (xs : List Item)
    → ((ltb x.1.price best.1.price ≡ true) × (pick best (x ∷ xs) ≡ pick x xs))
      ⊎ ((ltb x.1.price best.1.price ≡ false) × (pick best (x ∷ xs) ≡ pick best xs))
unfolding pick
pick-cons best x xs = elim (Bool-cases (ltb x.1.price best.1.price)) [
  | inl e ↦ inl (e, rw e refl)
  | inr e ↦ inr (e, rw e refl)
]

pick_one : (x : Item) → (pick x []).1.price ≤ x.1.price
unfolding pick
pick_one x = omega arith

pub pick-le : (x : Item) (xs : List Item) → All (λ y. (pick x xs).1.price ≤ y.1.price) (x ∷ xs)
pick-le best [] = (pick_one best, tt)
pick-le best (x ∷ xs) = elim (pick-cons best x xs) [
  | inl (e, same) ↦
      let less = pick-le x xs in
      let IsLess : Item → Type 0 = λ p. All (λ y. p.1.price ≤ y.1.price) (best ∷ x ∷ xs) in
      subst IsLess (sym same) (ground (arith, e, less.0), less)
  | inr (e, same) ↦
      let less = pick-le best xs in
      let IsLess : Item → Type 0 = λ p. All (λ y. p.1.price ≤ y.1.price) (best ∷ x ∷ xs) in
      subst IsLess (sym same) (less.0, (ground (arith, e, less.0), less.1))
]

-- the clusters with the indices kept
abbrev pub Clusters : Type 0
Clusters = Dict ℕ (List Item)

abbrev bare : Clusters → Dict ℕ (List Product)
bare d = map (λ c. (c.0, products c.1)) d

-- one item from each cluster
unfoldable pub picked_items : Clusters → List Item
picked_items [] = []
picked_items ((r, []) ∷ d) = picked_items d
picked_items ((r, x ∷ xs) ∷ d) = pick x xs ∷ picked_items d

pub keep_cheapest-picked_items :
    (d : Clusters) → keep_cheapest (map (λ c. c.1) (bare d)) ≡ products (picked_items d)
unfolding keep_cheapest picked_items
keep_cheapest-picked_items [] = refl
keep_cheapest-picked_items ((r, []) ∷ d) = keep_cheapest-picked_items d
keep_cheapest-picked_items ((r, x ∷ xs) ∷ d) = cc (pick-cheapest x xs, keep_cheapest-picked_items d)

lookup-bare :
    (d : Clusters) (k : ℕ) → get_or (lookup (bare d) k) [] ≡ products (get_or (lookup d k) [])
unfolding lookup
lookup-bare [] k = refl
lookup-bare ((j, xs) ∷ d) k = elim (Bool-cases (j == k)) [
  | inl e ↦ rw e refl
  | inr e ↦ rw e (lookup-bare d k)
]

insert-bare :
    (d : Clusters) (k : ℕ) (xs : List Item) → insert (bare d) k (products xs) ≡ bare (insert d k xs)
unfolding insert
insert-bare [] k xs = refl
insert-bare ((j, ys) ∷ d) k xs = elim (Bool-cases (j == k)) [
  | inl e ↦ rw e refl
  | inr e ↦ rw e (ap (λ rest. (j, products ys) ∷ rest) (insert-bare d k xs))
]

products-snoc : (xs : List Item) (x : Item) → products xs ++ x.1 ∷ [] ≡ products (xs ++ x ∷ [])
products-snoc [] x = refl
products-snoc (y ∷ xs) x = ap (λ rest. y.1 ∷ rest) (products-snoc xs x)

module _ (rep : ℕ → ℕ) where
  -- one item put into the cluster of its representative
  abbrev pub gather_one : Clusters → Item → Clusters
  gather_one d x = insert d (rep x.0) (get_or (lookup d (rep x.0)) [] ++ x ∷ [])

  unfoldable pub gather_items : Clusters → List Item → Clusters
  gather_items d [] = d
  gather_items d (x ∷ xs) = gather_items (gather_one d x) xs

  gather_one-bare :
      (d : Clusters) (x : Item)
      → insert (bare d) (rep x.0) (get_or (lookup (bare d) (rep x.0)) [] ++ x.1 ∷ [])
        ≡ bare (gather_one d x)
  gather_one-bare d x =
      ap (λ found. insert (bare d) (rep x.0) (found ++ x.1 ∷ [])) (lookup-bare d (rep x.0))
      ∙ ap (insert (bare d) (rep x.0)) (products-snoc (get_or (lookup d (rep x.0)) []) x)
      ∙ insert-bare d (rep x.0) (get_or (lookup d (rep x.0)) [] ++ x ∷ [])

  -- the loop that fills the clusters goes by representatives, paths halved or not
  pub cluster_items-gather_items :
      (fuel h : ℕ) (parent : Parent) (d : Clusters) (xs : List Item)
      → Implements parent h rep
      → h ≤ fuel
      → cluster_items fuel parent (bare d) xs ≡ bare (gather_items d xs)
  unfolding cluster_items gather_items
  cluster_items-gather_items fuel h parent d [] i le = refl
  cluster_items-gather_items fuel h parent d (x ∷ xs) i le =
      let (root, i') = find_lem fuel h parent x.0 rep i le in
      rw (root, gather_one-bare d x)
        (cluster_items-gather_items fuel h (find fuel parent x.0).0 (gather_one d x) xs i' le)
