-- ===== src/Serve/Tests.antt =====
-- Runs of dealfinder/serve.py, and its theorems at concrete inputs.
use tutorial_dealfinder.Base.{
  any, not, ◌&&◌, if◌then◌else◌, ◌↔◌, map, ℕ, ◌≡◌, ◌≢◌, ◌⊎◌, String, Bool, true, false, Option,
  none, some, List, [], ◌∷◌, ◌++◌, All, Dict, ok, contains, string_eq, pair_eq, has, lookup, keep,
  refl, leb, str_len, arith,
}
use tutorial_dealfinder.Aggregate.{Product}
use tutorial_dealfinder.Licensing.{may_embed, may_comingle, policy_for, source_key, before_colon}
use tutorial_dealfinder.Shop.Search.{SearchReply}
use tutorial_dealfinder.Serve.Shopper.{search, public_five_minutes}
use tutorial_dealfinder.Serve.Shopper.Remembered.{is_empty, stored_embeddings, search_lem}
use tutorial_dealfinder.Shop.Scoring.{Row, not_rated, live, check}
use tutorial_dealfinder.Serve.Stream.{
  StreamSource, Event, source_error, results, done, Done, land, land_found, batch_events,
  stream_sources, stream_search,
}
use tutorial_dealfinder.Serve.Stream.Events.{
  IsShown, rows_shown, offered, IsBest, Sums, stream_search-IsShown,
}
use tutorial_dealfinder.Ratelimit.{Limiter}
use tutorial_dealfinder.Serve.Edge.{
  edge_exempt, Request, forbidden, slow_down, edge_guard, retry_seconds, rate_limit, handle,
  limited,
}
use tutorial_dealfinder.Serve.Edge.Guarded.{Slows, handle_lem}
use tutorial_dealfinder.Serve.Ready.{
  current, Answers, Times, db_ready, boot, maybe_recheck_db, health_at, probe, is_stale, readyz,
}
use tutorial_dealfinder.Serve.Ready.Fresh.{Runs, Recent, WasReady, readyz-Recent}
use tutorial_dealfinder.Userstore.{Catalog}
use tutorial_dealfinder.Serve.Accounts.{
  WatchIn, created, removed, not_found, has_nul, has_slash, valid_offer_id, valid_money,
  valid_watch, watchlist_add, watchlist_remove,
}
use tutorial_dealfinder.Serve.Accounts.Routes.{watchlist_routes_lem}

program : Unit {0}
unfolding land land_found batch_events stream_sources edge_guard retry_seconds rate_limit handle
    limited db_ready boot maybe_recheck_db health_at probe is_stale readyz keep valid_offer_id
    valid_money valid_watch watchlist_add has_nul str_len contains lookup may_comingle policy_for
    source_key before_colon
program = tt

abbrev row : String → String → ℕ → Product
row source title price = record {
  id = title;
  brand = none;
  title = title;
  price = price;
  source = source;
  url = "u";
  image_url = none;
}

abbrev same : String → String
same s = s

abbrev sources : List StreamSource
sources =
    record {
      name = some "ebay";
      available = some true;
      search = some (some (row "eBay:Used" "lamp" 900 ∷ []));
    }
    ∷ record { name = none; available = some true; search = none }
    ∷ record { name = some "off"; available = some false; search = none }
    ∷ record {
      name = some "BestBuy";
      available = some true;
      search = some (some (row "BestBuy" "lamp" 1000 ∷ []));
    }
    ∷ []

abbrev middle : List ℕ → ℕ
middle prices = 1000

-- eBay's row is left out, and the source that raised is named by its stand-in
streamed :
    (stream_sources same same [] sources).1
    ≡ source_error "?" ∷ results "BestBuy" (row "BestBuy" "lamp" 1000 ∷ []) ∷ []
unfolding program
streamed = refl

stream_search-IsShown_example :
    (events : List Event) × (d : Done) × (best : Dict String Product) × (stream_search same same
        check middle "lamp" sources
      ≡ events ++ done d ∷ [])
    × All IsShown events
    × (rows_shown events ≡ offered sources)
    × IsBest same same (rows_shown events) best
    × Sums same same check middle best d
stream_search-IsShown_example = stream_search-IsShown same same check middle "lamp" sources

abbrev limiter : Limiter
limiter = record { windows = []; max_keys = 10; last_shrink = [] }

abbrev direct : Request
direct = record { path = "/search"; client = "1.2.3.4"; edge_header = none }

refused : handle (some "s3cret") true limiter direct 0 ≡ ok (limiter, forbidden)
unfolding program
refused = refl

rounded : retry_seconds 1001 ≡ 2
unfolding program
rounded = refl

handle_lem_example :
    (contains edge_exempt "/search" ≡ false
      → direct.edge_header ≢ some "s3cret"
      → handle (some "s3cret") true limiter direct 0 ≡ ok (limiter, forbidden))
    × (contains edge_exempt "/search" ≡ true
        → handle (some "s3cret") true limiter direct 0 ≡ rate_limit true limiter direct 0)
    × ((l' : Limiter) (r : ℕ)
        → handle (some "s3cret") true limiter direct 0 ≡ ok (l', slow_down r)
        → Slows limiter direct 0 r)
handle_lem_example = handle_lem "s3cret" true limiter direct 0 (λ h. cc)

abbrev url : Option String
url = some "postgres://"

-- the database comes up at second 20
abbrev late : ℕ → Bool
late t = leb 20 t

abbrev database : Answers
database = record { schema_ready = λ t. late t; ping = λ t. late t; schema_current = λ t. late t }

-- a probe that starts at second 50 and takes two seconds
abbrev slow_probe : Times
slow_probe = record { pinged = 50; looked = 51; stamped = 52 }

back : (readyz url database (boot url database 4 5) 50 slow_probe).1 ≡ current
unfolding program
back = refl

readyz-Recent_example :
    let p = maybe_recheck_db url database (boot url database 4 5) 50 50 in
    let (p', health) = readyz url database p 50 slow_probe in
    Recent url database 3 50 52 health
    × (health ≡ current → p'.db_on ≡ true)
    × (p'.db_on ≡ true → WasReady url database 3 52)
readyz-Recent_example =
    readyz-Recent url database 3 slow_probe
      (Runs.rechecked 50 (Runs.wait 50 (Runs.booted 4 5 (omega arith)) (omega arith)) (omega arith))
      (omega arith, omega arith, omega arith, omega arith) refl

abbrev catalog : Catalog
catalog =
    (
      ("public", "bb-1"),
      record {
        title = "tv";
        url = none;
        image_url = none;
        source = some "BestBuy";
        price = 29900;
        fetched_at = 5;
      },
    )
    ∷ []

abbrev item : WatchIn
item = record { offer_id = "bb-1"; target_price = some 25000 }

free_target : valid_watch (record item { target_price = some 0 }) ≡ false
unfolding program
free_target = refl

-- the id of a Firecrawl listing holds an address
abbrev crawled : WatchIn
crawled = record { offer_id = "firecrawl-https://a"; target_price = none }

unroutable : (valid_watch crawled && has_slash crawled.offer_id) ≡ true
unfolding program has_slash
unroutable = refl

watchlist_routes_lem_example :
    let (w, s) = watchlist_add true catalog [] "ann" "public" item 7 in
    ((s ≡ created) ⊎ (w ≡ []))
    × (s ≡ created
        → (has w ("ann", "bb-1") ≡ true)
          × (has_slash "bb-1" ≡ false
              → let (w', s') = watchlist_remove true w "ann" "bb-1" in
                (s' ≡ removed)
                × (has w' ("ann", "bb-1") ≡ false)
                × ((watchlist_remove true w' "ann" "bb-1").1 ≡ not_found))
          × (has_slash "bb-1" ≡ true → watchlist_remove true w "ann" "bb-1" ≡ (w, not_found)))
watchlist_routes_lem_example = watchlist_routes_lem true catalog [] "ann" "public" item 7

abbrev shown : String → Row
shown source = record {
  offer = record {
    id = "1";
    sku = none;
    title = "lamp";
    brand = none;
    price = 900;
    regular_price = none;
    source = some source;
    url = none;
    image_url = none;
    fetched_at = none;
  };
  slug = none;
  category = none;
  reason = not_rated;
  verdict = none;
  pct_under_median = none;
  fair_price = none;
  residual_part = none;
  basis = none;
}

abbrev reply : SearchReply (Unit {0})
reply = record {
  query = "lamp";
  mode = live;
  count = 2;
  median_price = some 900;
  results = shown "BestBuy" ∷ shown "unknown" ∷ [];
  ebay = tt;
  attribution = [];
  degraded = false;
}

abbrev lengths : List String → List ℕ
lengths titles = map str_len titles

-- of a store without a policy nothing is embedded
embedded_live : stored_embeddings str_len live reply.results ≡ some (some 4 ∷ none ∷ [])
unfolding program may_embed any
embedded_live = refl

search_lem_example :
    let (header, call) = search lengths true false reply in
    ((header ≡ public_five_minutes) ↔ ((false ≡ false) × (false ≡ false)))
    × (call ≡ (
        if true && not (is_empty reply.results)
        then some (reply.results, stored_embeddings str_len live reply.results)
        else none))
search_lem_example = search_lem str_len lengths true false reply (λ titles. refl)
