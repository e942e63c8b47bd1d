-- ===== src/Shop/Tests.antt =====
-- Runs of dealfinder/shop.py, and its theorems at concrete inputs.
use tutorial_dealfinder.Base.{
  after_colon, ℕ, ◌+◌, ◌≤◌, ◌<◌, ◌≡◌, String, true, Option, none, some, List, [], ◌∷◌, map, length,
  any, All, contains, IsOnce, refl, arith, string_eq, pair_eq, list_eq, lookup, remove,
}
use tutorial_dealfinder.Licensing.{ebay}
use tutorial_dealfinder.Shop.Ebay.{
  Product, Cache, peek, store, entry_of, ebay_box, ebay_enabled, trim,
}
use tutorial_dealfinder.Shop.Ebay.Freshness.{Runs, cached_answer_fresh}
use tutorial_dealfinder.Shop.Scoring.{Offer, live, Estimates, verdict_mode}
use tutorial_dealfinder.Shop.Scoring.Licensed.{IsLicensed}
use tutorial_dealfinder.Shop.Search.{Attribution, Found, required, shop_search}
use tutorial_dealfinder.Shop.Search.Reply.{asks, shop_search-IsLicensed}

program : Unit {0}
unfolding after_colon peek store entry_of ebay_box ebay_enabled trim verdict_mode lookup remove
program = tt

abbrev lamp : Product
lamp = record {
  id = "1";
  title = "lamp";
  price = 1000;
  currency = "USD";
  url = "u";
  source = "ebay:Used";
  image_url = none;
}

abbrev sold : String → ℕ → ℕ → Option (List Product)
sold key at limit = some (lamp ∷ [])

abbrev filled : Cache
filled = store [] "lamp" (entry_of 5 4 (sold "lamp" 5 4))

condition : after_colon "ebay:Used" ≡ "Used"
unfolding program
condition = refl

-- the second request is answered from the cache
box_hit :
    (peek filled "lamp" 904).1
    ≡ some (
        (record {
          id = "1";
          title = "lamp";
          price = 1000;
          currency = "USD";
          url = "u";
          condition = "Used";
          image_url = none;
        })
        ∷ [])
unfolding program
box_hit = refl

box_stale : (peek filled "lamp" 905).1 ≡ none
unfolding program
box_stale = refl

cached_answer_fresh_example :
    ((at : ℕ) × (limit : ℕ) × ((entry_of 5 4 (sold "lamp" 5 4)).items
        ≡ (entry_of at limit (sold "lamp" at limit)).items)
      × (904 < at + 900)
      × (904 < at + ebay.max_age_s))
    × (length filled ≤ 256)
unfolding program
cached_answer_fresh_example =
    cached_answer_fresh sold "lamp" 904 ((entry_of 5 4 (sold "lamp" 5 4)).items)
      (Runs.stored {now = 5} "lamp" 5 4 (Runs.start 5) (omega arith)) refl

abbrev guess : String → Option String × Option ℕ
guess title = (some "headphones", some 10000)

abbrev est : Estimates
est = record {
  guess_category = λ t. none;
  model_fair = λ c r. none;
  peer_fair_prices = λ rs j. some 2000;
  offer_slug = λ t s. none;
  round_pct = λ f. f;
}

abbrev offer : String → ℕ → Offer
offer source price = record {
  id = source;
  sku = none;
  title = "lamp";
  brand = none;
  price = price;
  regular_price = none;
  source = some source;
  url = none;
  image_url = none;
  fetched_at = none;
}

abbrev found : Found
found = record {
  results = offer "eBay:Used" 900 ∷ offer "BestBuy" 1000 ∷ offer "BestBuy" 3000 ∷ [];
  timed_out = [];
  throttled = "bestbuy" ∷ [];
  benched = [];
}

abbrev middle : List ℕ → ℕ
middle prices = 2000

shop_search-IsLicensed_example :
    let reply = shop_search est middle live "lamp" 5 found true in
    (length reply.results ≤ 5)
    × All (IsLicensed live) reply.results
    × ((a : Attribution)
        → contains reply.attribution a
          ≡ any (λ s. asks a (required s)) (map (λ x. x.offer.source) reply.results))
    × IsOnce reply.attribution
shop_search-IsLicensed_example = shop_search-IsLicensed est middle live "lamp" 5 found true
