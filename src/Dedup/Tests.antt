-- ===== src/Dedup/Tests.antt =====
-- Runs of dealfinder/dedup.py, and its theorem at a concrete input.
use mathlib.Core.List.{Memᴰ}
use tutorial_dealfinder.Base.{
  false, All, nat_beq, suc, none, ℕ, ◌≡◌, ◌↔◌, ◌==◌, String, List, [], ◌∷◌, map, keep, all,
  contains, lookup, insert, refl, if◌then◌else◌, length, string_eq,
}
use tutorial_dealfinder.Aggregate.{Product}
use tutorial_dealfinder.Dedup.Forest.{find, union, unite}
use tutorial_dealfinder.Dedup.{
  has_digit, same_set, enumerate, cheapest, keep_cheapest, cluster_items, model_tokens, first_token,
  same_product, linked_pairs, united, dedup_by_embedding,
}
use tutorial_dealfinder.Dedup.Gathered.{Item}
use tutorial_dealfinder.Dedup.Kept.{IsUnlinked, IsCovered, dedup_by_embedding_lem}
use tutorial_dealfinder.Dedup.Clusters.{Linked, pairs_of, find-Linked}

program : Unit {0}
unfolding has_digit same_set enumerate cheapest keep_cheapest cluster_items model_tokens first_token
    same_product linked_pairs united dedup_by_embedding find union unite keep all contains lookup
    insert
program = tt

abbrev row : String → String → ℕ → Product
row id title price = record {
  id = id;
  brand = none;
  title = title;
  price = price;
  source = "demo";
  url = "u";
  image_url = none;
}

abbrev items : List Product
items = row "a" "sony xm5" 30000 ∷ row "b" "sony xm6" 40000 ∷ row "c" "sony xm5 black" 25000 ∷ []

abbrev tokens : String → List String
tokens title =
    if title == "sony xm6"
    then "sony" ∷ "xm6" ∷ []
    else if title == "sony xm5"
    then "sony" ∷ "xm5" ∷ []
    else "sony" ∷ "xm5" ∷ "black" ∷ []

abbrev sim : ℕ → ℕ → ℕ
sim i j = 9251

-- alike in words, the XM5 and the XM6 stay apart by their model tokens
pairs : pairs_of tokens sim 9000 9500 items ≡ (0, 2) ∷ []
unfolding program
pairs = refl

kept : map (λ p. p.id) (dedup_by_embedding tokens sim 9000 9500 items) ≡ "c" ∷ "b" ∷ []
unfolding program
kept = refl

find-Linked_example :
    let found = pairs_of tokens sim 9000 9500 items in
    let parent = united tokens sim 9000 9500 items in
    ((find (length found) parent 0).1 ≡ (find (length found) parent 2).1) ↔ Linked found 0 2
find-Linked_example = find-Linked tokens sim 9000 9500 items 0 2

abbrev chain : List Product
chain =
    row "a" "sony headphones" 30000
    ∷ row "b" "sony wireless headphones" 40000
    ∷ row "c" "sony wireless set" 25000
    ∷ []

-- each is like the next only
abbrev chain_sim : ℕ → ℕ → ℕ
chain_sim i j = if nat_beq (suc i) j then 9600 else 8000

abbrev words : String → List String
words title = "sony" ∷ []

-- the ends of a chain are merged, though their own similarity is under either threshold
apart :
    same_product words chain_sim 9000 9500
      (0, row "a" "sony headphones" 30000)
      (2, row "c" "sony wireless set" 25000)
    ≡ false
unfolding program
apart = refl

chained : map (λ p. p.id) (dedup_by_embedding words chain_sim 9000 9500 chain) ≡ "c" ∷ []
unfolding program
chained = refl

dedup_by_embedding_lem_example :
    (kept : List Item) × (dedup_by_embedding tokens sim 9000 9500 items ≡ map (λ x. x.1) kept)
    × All (λ y. Memᴰ y (enumerate 0 items)) kept
    × IsUnlinked (pairs_of tokens sim 9000 9500 items) kept
    × All (IsCovered tokens sim 9000 9500 items kept) (enumerate 0 items)
dedup_by_embedding_lem_example = dedup_by_embedding_lem tokens sim 9000 9500 items
