-- ===== src/Aggregate/Reply.antt =====
-- The reply of `aggregate` of dealfinder/aggregate.py, over the dedup of dealfinder/dedup.py. The
-- tokens of a title and the similarity of the titles of a list are parameters; the query, the
-- median, the discount and the time stamp of each result are left out.
use tutorial_dealfinder.Base.{ℕ, String, List, map, Dict, sort, take, length}
use tutorial_dealfinder.Aggregate.{Product, Source, World, gather, best_offers}
use tutorial_dealfinder.Aggregate.Ranked.{by_price}
use tutorial_dealfinder.Dedup.{dedup_by_embedding}

pub record Aggregated : Type 0 where
  pub sources_live : List String
  pub throttled : List String
  pub timed_out : List String
  pub benched : List String
  pub count : ℕ
  pub results : List Product

-- the defaults of `dedup_by_embedding`, in ten-thousandths
abbrev pub sim_threshold : ℕ
sim_threshold = 9000

abbrev pub no_model_threshold : ℕ
no_model_threshold = 9500

module _ (strip lower : String → String) (tokens : String → List String)
    (sim : List Product → ℕ → ℕ → ℕ) where
  -- `items`
  unfoldable pub items : List Product → List Product
  items products =
      let offers = map (λ e. e.1) (best_offers strip lower products) in
      dedup_by_embedding tokens (sim offers) sim_threshold no_model_threshold offers

  -- `ranked`
  unfoldable pub ranked : ℕ → List Product → List Product
  ranked limit products = take limit (sort by_price (items products))

  -- `aggregate`
  unfoldable pub aggregate : World → Dict String ℕ → List Source → ℕ → ℕ → Aggregated
  aggregate w cooldown sources limit target =
      let (benched, p) = gather strip lower w cooldown sources target in
      let results = ranked limit p.products in
      record {
        sources_live = p.live;
        throttled = p.throttled;
        timed_out = p.timed_out;
        benched = benched;
        count = length results;
        results = results;
      }
