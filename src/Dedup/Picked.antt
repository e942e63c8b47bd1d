-- ===== src/Dedup/Picked.antt =====
-- One cheapest item from each cluster of dealfinder/dedup.py.
use mathlib.Core.List.{Memᴰ}
use mathlib.Core.List.Memᴰ.{head, tail, not-nil}
use tutorial_dealfinder.Base.{
  ℕ, ◌≤◌, ◌≡◌, ◌≢◌, List, [], ◌∷◌, All, lookup, IsDict, some, none, nat_eq, arith, refl, sym, ◌∙◌,
  Bool-cases, inl, inr, subst, ◌==◌,
}
use tutorial_dealfinder.Dedup.Gathered.{Item, Clusters, pick, pick-Mem, pick-le, picked_items}
use tutorial_dealfinder.Dedup.Placed.{All-at}

-- two items have different representatives wherever they stand in the list
abbrev pub IsApart : (ℕ → ℕ) → List Item → Type 0
IsApart rep [] = Unit
IsApart rep (x ∷ xs) = All (λ y. rep x.0 ≢ rep y.0) xs × IsApart rep xs

-- every cluster is of its representative, and of items found in the source
abbrev pub IsPlaced : (ℕ → ℕ) → (Item → Type 0) → Clusters → Type 0
IsPlaced rep Source d = All (λ c. All (λ x. (rep x.0 ≡ c.0) × Source x) c.1) d

module _ (rep : ℕ → ℕ) (Source : Item → Type 0) where
  pick_at :
      (r : ℕ) (x : Item) (xs : List Item)
      → All (λ y. (rep y.0 ≡ r) × Source y) (x ∷ xs)
      → (rep (pick x xs).0 ≡ r) × Source (pick x xs)
  pick_at r x xs h = All-at (λ y. (rep y.0 ≡ r) × Source y) (x ∷ xs) h (pick-Mem x xs)

  pub picked-Source : (d : Clusters) → IsPlaced rep Source d → All Source (picked_items d)
  unfolding picked_items
  picked-Source [] h = tt
  picked-Source ((r, []) ∷ d) h = picked-Source d h.1
  picked-Source ((r, x ∷ xs) ∷ d) h = ((pick_at r x xs h.0).1, picked-Source d h.1)

  picked-other :
      (k : ℕ) (d : Clusters)
      → IsPlaced rep Source d
      → lookup d k ≡ none
      → All (λ y. k ≢ rep y.0) (picked_items d)
  unfolding picked_items lookup
  picked-other k [] h missing = tt
  picked-other k ((r, []) ∷ d) h missing = picked-other k d h.1 (ground (arith, missing))
  picked-other k ((r, x ∷ xs) ∷ d) h missing = (
    λ same.
        let here : k ≡ r = same ∙ (pick_at r x xs h.0).0 in
        ground (arith, missing, here, nat_eq.same_iff r k),
    picked-other k d h.1 (ground (arith, missing)),
  )

  pub picked-IsApart :
      (d : Clusters) → IsDict d → IsPlaced rep Source d → IsApart rep (picked_items d)
  unfolding picked_items
  picked-IsApart [] once h = tt
  picked-IsApart ((r, []) ∷ d) once h = picked-IsApart d once.1 h.1
  picked-IsApart ((r, x ∷ xs) ∷ d) once h = (
    subst (λ k. All (λ y. k ≢ rep y.0) (picked_items d)) (sym (pick_at r x xs h.0).0)
        (picked-other r d h.1 once.0),
    picked-IsApart d once.1 h.1,
  )

  -- an item of the clusters has one picked in its place, of the same representative and no dearer
  abbrev pub HasPick : Clusters → Item → Type 0
  HasPick d x = (y : Item) × Memᴰ y (picked_items d) × (rep x.0 ≡ rep y.0) × (y.1.price ≤ x.1.price)

  picked_first :
      (r : ℕ) (x : Item) (l : List Item) (d : Clusters)
      → All (λ y. (rep y.0 ≡ r) × Source y) l
      → Memᴰ x l
      → HasPick ((r, l) ∷ d) x
  unfolding picked_items
  picked_first r x [] d h m = absurd (not-nil m)
  picked_first r x (z ∷ zs) d h m = (
    pick z zs,
    head refl,
    (All-at (λ y. (rep y.0 ≡ r) × Source y) (z ∷ zs) h m).0 ∙ sym (pick_at r z zs h).0,
    All-at (λ y. (pick z zs).1.price ≤ y.1.price) (z ∷ zs) (pick-le z zs) m,
  )

  picked_later :
      (r : ℕ) (x : Item) (l : List Item) (d : Clusters) → HasPick d x → HasPick ((r, l) ∷ d) x
  unfolding picked_items
  picked_later r x [] d h = h
  picked_later r x (z ∷ zs) d (y, m, same, less) = (y, tail m, same, less)

  pub picked-HasPick :
      (d : Clusters) (k : ℕ) (x : Item) (l : List Item)
      → IsPlaced rep Source d
      → lookup d k ≡ some l
      → Memᴰ x l
      → HasPick d x
  unfolding lookup
  picked-HasPick [] k x l h found m = absurd (ground (arith, found))
  picked-HasPick ((r, l') ∷ d) k x l h found m = elim (Bool-cases (r == k)) [
    | inl e ↦
        let same : l ≡ l' = (ground (arith, found, e)) in
        picked_first r x l' d h.0 (subst (λ z. Memᴰ x z) same m)
    | inr e ↦ picked_later r x l' d (picked-HasPick d k x l h.1 (ground (arith, found, e)) m)
  ]
