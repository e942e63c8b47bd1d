-- ===== src/Dedup/Kept.antt =====
-- What `dedup_by_embedding` of dealfinder/dedup.py keeps of each cluster.
use mathlib.Core.List.{Memᴰ}
use mathlib.Core.List.Memᴰ.{head, tail}
use tutorial_dealfinder.Base.{
  nat_eq, ℕ, ◌≤◌, ◌≡◌, String, List, [], ◌∷◌, map, All, All-weaken, lookup, All-lookup, length,
  some, arith, refl, ap, ◌∙◌,
}
use tutorial_dealfinder.Aggregate.{Product}
use tutorial_dealfinder.Dedup.{first_token, keep_cheapest, enumerate, united, dedup_by_embedding}
use tutorial_dealfinder.Dedup.Gathered.{
  Item, Clusters, products, picked_items, gather_items, keep_cheapest-picked_items,
  cluster_items-gather_items,
}
use tutorial_dealfinder.Dedup.Placed.{
  All-at, IsSound, IsIn, gather_items-IsSound, gather_items-IsDict, gather_items-IsIn,
}
use tutorial_dealfinder.Dedup.Picked.{
  IsApart, IsPlaced, picked-Source, picked-IsApart, picked-HasPick,
}
use tutorial_dealfinder.Dedup.Clusters.{Linked, pairs_of, rep_of, rep_of-Linked, united-Implements}
use tutorial_dealfinder.Dedup.Brand.{Linked-brand}

All-self_in : (xs : List Item) → All (λ x. Memᴰ x xs) xs
All-self_in [] = tt
All-self_in (x ∷ xs) = (
  head refl,
  All-weaken (λ y. Memᴰ y xs) (λ y. Memᴰ y (x ∷ xs)) xs (λ y m. tail m) (All-self_in xs),
)

All-both : (P Q : Item → Type 0) (xs : List Item) → All P xs → All Q xs → All (λ x. P x × Q x) xs
All-both P Q [] h k = tt
All-both P Q (x ∷ xs) h k = ((h.0, k.0), All-both P Q xs h.1 k.1)

-- no two of the items are linked
abbrev pub IsUnlinked : List (ℕ × ℕ) → List Item → Type 0
IsUnlinked pairs [] = Unit
IsUnlinked pairs (x ∷ xs) = All (λ y. ¬ Linked pairs x.0 y.0) xs × IsUnlinked pairs xs

IsApart-IsUnlinked :
    (pairs : List (ℕ × ℕ)) (xs : List Item) → IsApart (rep_of pairs) xs → IsUnlinked pairs xs
IsApart-IsUnlinked pairs [] h = tt
IsApart-IsUnlinked pairs (x ∷ xs) h = (
  All-weaken (λ y. ¬ (rep_of pairs x.0 ≡ rep_of pairs y.0)) (λ y. ¬ Linked pairs x.0 y.0) xs
      (λ y apart l. apart ((rep_of-Linked pairs x.0 y.0).1 l)) h.0,
  IsApart-IsUnlinked pairs xs h.1,
)

empty-IsSound : (rep : ℕ → ℕ) (Source : Item → Type 0) → IsSound rep Source []
unfolding lookup
empty-IsSound rep Source k l found = absurd (ground (arith, found))

-- the clusters of the items, by representatives
abbrev clusters_of : List (ℕ × ℕ) → List Item → Clusters
clusters_of pairs xs = gather_items (rep_of pairs) [] xs

clusters_of-IsPlaced :
    (pairs : List (ℕ × ℕ)) (xs : List Item)
    → IsPlaced (rep_of pairs) (λ x. Memᴰ x xs) (clusters_of pairs xs)
clusters_of-IsPlaced pairs xs =
    let rep = rep_of pairs in
    let Source : Item → Type 0 = λ x. Memᴰ x xs in
    let d = clusters_of pairs xs in
    All-weaken (λ c. lookup d c.0 ≡ some c.1) (λ c. All (λ x. (rep x.0 ≡ c.0) × Source x) c.1) d
      (λ c h.
        gather_items-IsSound rep Source [] xs (All-self_in xs) (empty-IsSound rep Source) c.0 c.1 h)
      (All-lookup d (gather_items-IsDict rep Source [] xs tt))

module _ (tokens : String → List String) (sim : ℕ → ℕ → ℕ) (sim_threshold no_model_threshold : ℕ)
    (items : List Product) where
  abbrev pairs : List (ℕ × ℕ)
  pairs = pairs_of tokens sim sim_threshold no_model_threshold items

  dedup_picked :
      dedup_by_embedding tokens sim sim_threshold no_model_threshold items
      ≡ products (picked_items (clusters_of pairs (enumerate 0 items)))
  unfolding dedup_by_embedding
  dedup_picked =
      let parent = united tokens sim sim_threshold no_model_threshold items in
      ap (λ d. keep_cheapest (map (λ c. c.1) d))
        (cluster_items-gather_items (rep_of pairs) (length pairs) (length pairs) parent []
          (enumerate 0 items) (united-Implements tokens sim sim_threshold no_model_threshold items)
          (omega arith))
      ∙ keep_cheapest-picked_items (clusters_of pairs (enumerate 0 items))

  -- an item has one kept in its place: linked to it, no dearer, and of the same first token
  abbrev pub IsCovered : List Item → Item → Type 0
  IsCovered kept x =
      (y : Item) × Memᴰ y kept
      × Linked (pairs_of tokens sim sim_threshold no_model_threshold items) x.0 y.0
      × (y.1.price ≤ x.1.price)
      × (first_token tokens sim sim_threshold no_model_threshold x.1.title
          ≡ first_token tokens sim sim_threshold no_model_threshold y.1.title)

  covered :
      (x : Item)
      → IsIn (rep_of pairs) (clusters_of pairs (enumerate 0 items)) x
      → Memᴰ x (enumerate 0 items)
      → IsCovered (picked_items (clusters_of pairs (enumerate 0 items))) x
  covered x (l, found, at) from =
      let xs = enumerate 0 items in
      let Source : Item → Type 0 = λ y. Memᴰ y xs in
      let d = clusters_of pairs xs in
      let placed = clusters_of-IsPlaced pairs xs in
      let (y, m, same, less) =
        picked-HasPick (rep_of pairs) Source d (rep_of pairs x.0) x l placed found at in
      let link = (rep_of-Linked pairs x.0 y.0).0 same in
      let from_y =
        All-at Source (picked_items d) (picked-Source (rep_of pairs) Source d placed) m in
      (
        y,
        m,
        link,
        less,
        Linked-brand tokens sim sim_threshold no_model_threshold items x y from from_y link,
      )

  -- `dedup_by_embedding` keeps one item of each cluster and loses none: the kept items are among the
  -- items, no two of them are linked by the least equivalence that holds of the pairs found to be the
  -- same product, and every item is linked to a kept one that is no dearer and has the same first
  -- token.
  pub dedup_by_embedding_lem :
      (kept : List Item) × (dedup_by_embedding tokens sim sim_threshold no_model_threshold items
        ≡ map (λ x. x.1) kept)
      × All (λ y. Memᴰ y (enumerate 0 items)) kept
      × IsUnlinked (pairs_of tokens sim sim_threshold no_model_threshold items) kept
      × All (IsCovered kept) (enumerate 0 items)
  dedup_by_embedding_lem =
      let xs = enumerate 0 items in
      let rep = rep_of pairs in
      let Source : Item → Type 0 = λ x. Memᴰ x xs in
      let d = clusters_of pairs xs in
      let placed = clusters_of-IsPlaced pairs xs in
      (
        picked_items d,
        dedup_picked,
        picked-Source rep Source d placed,
        IsApart-IsUnlinked pairs (picked_items d)
            (picked-IsApart rep Source d (gather_items-IsDict rep Source [] xs tt) placed),
        All-weaken (λ x. IsIn rep d x × Memᴰ x xs) (IsCovered (picked_items d)) xs
            (λ x h. covered x h.0 h.1)
            (All-both (IsIn rep d) Source xs (gather_items-IsIn rep [] xs) (All-self_in xs)),
      )
