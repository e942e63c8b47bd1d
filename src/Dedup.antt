-- ===== src/Dedup.antt =====
-- dealfinder/dedup.py. The tokens of a title (`_TOKEN.findall` of it in lower case) and the cosine
-- similarity of two titles, in ten-thousandths, are parameters; prices are whole cents.
pub mod Forest
pub mod Clusters
pub mod Gathered
pub mod Placed
pub mod Picked
pub mod Brand
pub mod Kept
mod Tests
use Prim.Native.Char.{code}
use tutorial_dealfinder.Base.{
  ℕ, zero, suc, String, Bool, true, false, not, ◌&&◌, ◌||◌, ◌==◌, Option, none, some, List, [], ◌∷◌,
  ◌++◌, map, keep, all, contains, leb, ltb, Dict, lookup, insert, get_or, length, if◌then◌else◌,
  string_eq, nat_eq,
}
use tutorial_dealfinder.Aggregate.{Product}
use tutorial_dealfinder.Dedup.Forest.{Parent, find, unite}

-- `any(c.isdigit() for c in t)`, of a token, whose characters are a-z and 0-9
unfoldable pub has_digit : String → Bool
has_digit String.[] = false
has_digit (String.◌∷◌ c s) = (leb b'0' (code c) && leb (code c) b'9') || has_digit s

-- `==` of the sets of two lists
unfoldable pub same_set : List String → List String → Bool
same_set xs ys = all (λ x. contains ys x) xs && all (λ y. contains xs y) ys

-- `bool(tokens)`
abbrev pub is_filled : List String → Bool
is_filled [] = false
is_filled (_ ∷ _) = true

-- `m[0] if m else ""`
abbrev pub first_or_empty : List String → String
first_or_empty [] = ""
first_or_empty (t ∷ tokens) = t

-- `enumerate(items)`
unfoldable pub enumerate : ℕ → List Product → List (ℕ × Product)
enumerate i [] = []
enumerate i (p ∷ items) = (i, p) ∷ enumerate (suc i) items

-- `min(cluster, key=lambda p: p.price)`: the first of the cheapest
unfoldable pub cheapest : Product → List Product → Product
cheapest best [] = best
cheapest best (p ∷ cluster) =
    if ltb p.price best.price then cheapest p cluster else cheapest best cluster

-- the loop over the clusters, none of which is empty
unfoldable pub keep_cheapest : List (List Product) → List Product
keep_cheapest [] = []
keep_cheapest ([] ∷ clusters) = keep_cheapest clusters
keep_cheapest ((p ∷ cluster) ∷ clusters) = cheapest p cluster ∷ keep_cheapest clusters

-- the loop over the items that fills `clusters`; `find` goes on halving paths
unfoldable pub cluster_items :
    ℕ → Parent → Dict ℕ (List Product) → List (ℕ × Product) → Dict ℕ (List Product)
cluster_items fuel parent clusters [] = clusters
cluster_items fuel parent clusters ((i, p) ∷ items) =
    let (parent', root) = find fuel parent i in
    cluster_items fuel parent' (insert clusters root (get_or (lookup clusters root) [] ++ p ∷ []))
      items

module _ (tokens : String → List String) (sim : ℕ → ℕ → ℕ)
    (sim_threshold no_model_threshold : ℕ) where
  -- `_model_tokens`
  unfoldable pub model_tokens : String → List String
  model_tokens title = keep has_digit (tokens title)

  -- `_first_token`
  unfoldable pub first_token : String → String
  first_token title = first_or_empty (tokens title)

  -- `same_product`
  unfoldable pub same_product : ℕ × Product → ℕ × Product → Bool
  same_product (i, p) (j, q) =
      let ms = model_tokens p.title in
      let ns = model_tokens q.title in
      if not (first_token p.title == first_token q.title)
      then false
      else if is_filled ms && is_filled ns
      then same_set ms ns && leb sim_threshold (sim i j)
      else if not (is_filled ms) && not (is_filled ns)
      then leb no_model_threshold (sim i j)
      else false

  -- the pairs that the two loops unite, in their order
  unfoldable pub linked_pairs : List (ℕ × Product) → List (ℕ × ℕ)
  linked_pairs [] = []
  linked_pairs (x ∷ items) =
      map (λ y. (x.0, y.0)) (keep (λ y. same_product x y) items) ++ linked_pairs items

  -- the list `parent` after the unions, from `list(range(n))`
  unfoldable pub united : List Product → Parent
  united items = let pairs = linked_pairs (enumerate 0 items) in unite (length pairs) (λ x. x) pairs

  -- `dedup_by_embedding`
  unfoldable pub dedup_by_embedding : List Product → List Product
  dedup_by_embedding items =
      let fuel = length (linked_pairs (enumerate 0 items)) in
      keep_cheapest (map (λ x. x.1) (cluster_items fuel (united items) [] (enumerate 0 items)))
