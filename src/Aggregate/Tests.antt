-- ===== src/Aggregate/Tests.antt =====
-- Runs of dealfinder/aggregate.py, and the theorems at concrete inputs.
use mathlib.Core.List.Perm
use mathlib.Core.List.{Mem}
use mathlib.Core.Quot.{Quot}
use tutorial_dealfinder.Base.{
  ◌≤◌, List, all, ℕ, if◌then◌else◌, ◌<◌, ◌≡◌, String, true, none, some, [], ◌∷◌, All, lookup,
  insert, refl, sort, map, keep, contains, string_eq, arith, ◌==◌,
}
use tutorial_dealfinder.Aggregate.{
  Source, Product, late, found, World, gather, is_benched, best_offers, dedup_key, settle, run,
  escalate, fall_back, bench, distinct, improves, best_from, ingest, ingest_from,
}
use tutorial_dealfinder.Aggregate.Catalog.{price_in, lowest_price, ingest_lem}
use tutorial_dealfinder.Aggregate.Ranked.{IsRanked, Undercuts}
use tutorial_dealfinder.Aggregate.Reply.{items, ranked, aggregate}
use tutorial_dealfinder.Aggregate.Undercut.{aggregate_lem}
use tutorial_dealfinder.Dedup.Forest.{find, union, unite}
use tutorial_dealfinder.Dedup.{
  has_digit, same_set, enumerate, cheapest, keep_cheapest, cluster_items, model_tokens, first_token,
  same_product, linked_pairs, united, dedup_by_embedding,
}
use tutorial_dealfinder.Aggregate.Cooldown.{gather_benches}

program : Unit {0}
unfolding gather is_benched best_offers dedup_key settle run escalate fall_back bench distinct
    improves best_from ingest ingest_from lookup insert sort keep contains all has_digit same_set
    enumerate cheapest keep_cheapest cluster_items model_tokens first_token same_product
    linked_pairs united dedup_by_embedding find union unite items ranked aggregate
program = tt

-- texts that need no trimming
abbrev as_is : String → String
as_is s = s

abbrev cheap : Product
cheap = record {
  id = "a1";
  brand = some "acme";
  title = "tv";
  price = 100;
  source = "demo";
  url = "u";
  image_url = none;
}

abbrev dear : Product
dear = record {
  id = "b1";
  brand = some "acme";
  title = "tv";
  price = 120;
  source = "demo";
  url = "u";
  image_url = none;
}

abbrev fast : Source
fast = record { name = "fast"; is_available = true; tier = some 1; fallback_only = none }

abbrev slow : Source
slow = record { name = "slow"; is_available = true; tier = some 3; fallback_only = none }

abbrev world : World
world = record {
  now = 10;
  outcome = λ s. if s.name == "fast" then found (dear ∷ cheap ∷ []) else late;
  benched_at = λ s. 18;
}

searched : (gather as_is as_is world [] (slow ∷ fast ∷ []) 12).1.throttled ≡ "slow" ∷ []
unfolding program
searched = refl

one_offer : best_offers as_is as_is (dear ∷ cheap ∷ []) ≡ ("acme|tv", cheap) ∷ []
unfolding program
one_offer = refl

gather_benches_example :
    let p = (gather as_is as_is world [] (slow ∷ fast ∷ []) 12).1 in
    All (λ name. (now : ℕ) → now < 100 → is_benched p.cooldown now name ≡ true) p.throttled
gather_benches_example =
    gather_benches world 10 (λ s. omega arith) as_is as_is [] (slow ∷ fast ∷ []) 12

ingested : map (λ p. p.id) (ingest as_is as_is ((dear ∷ []) ∷ (cheap ∷ []) ∷ [])) ≡ "a1" ∷ []
unfolding program
ingested = refl

ingest_lem_example :
    (price_in (lookup (ingest_from as_is as_is [] ((dear ∷ []) ∷ (cheap ∷ []) ∷ [])) "acme|tv")
      ≡ lowest_price as_is as_is "acme|tv" (Quot.mk (cheap ∷ dear ∷ [])))
    × (price_in (lookup (best_offers as_is as_is (cheap ∷ dear ∷ [])) "acme|tv")
        ≡ lowest_price as_is as_is "acme|tv" (Quot.mk (cheap ∷ dear ∷ [])))
ingest_lem_example =
    ingest_lem as_is as_is ((dear ∷ []) ∷ (cheap ∷ []) ∷ []) (cheap ∷ dear ∷ []) "acme|tv"
      (Perm.swap cheap dear [])

abbrev other : Product
other = record dear { title = "lcd tv"; price = 110 }

abbrev two_stores : World
two_stores = record {
  now = 10;
  outcome = λ s. if s.name == "fast" then found (dear ∷ cheap ∷ []) else found (other ∷ []);
  benched_at = λ s. 18;
}

abbrev one_token : String → List String
one_token title = "tv" ∷ []

abbrev alike : List Product → ℕ → ℕ → ℕ
alike offers i j = 9900

abbrev unlike : List Product → ℕ → ℕ → ℕ
unlike offers i j = 100

-- two keys, one product
one_result :
    (aggregate as_is as_is one_token alike two_stores [] (slow ∷ fast ∷ []) 24 12).results
    ≡ cheap ∷ []
unfolding program
one_result = refl

both_ranked :
    (aggregate as_is as_is one_token unlike two_stores [] (slow ∷ fast ∷ []) 24 12).results
    ≡ cheap ∷ other ∷ []
unfolding program
both_ranked = refl

aggregate_lem_example :
    let products = (gather as_is as_is two_stores [] (slow ∷ fast ∷ []) 12).1.products in
    let reply = aggregate as_is as_is one_token alike two_stores [] (slow ∷ fast ∷ []) 1 12 in
    All (λ q. Mem q products) reply.results
    × IsRanked reply.results
    × (reply.count ≤ 1)
    × All (Undercuts reply.results) products
aggregate_lem_example =
    aggregate_lem as_is as_is one_token alike two_stores [] (slow ∷ fast ∷ []) 0 12
