-- ===== src/Sources/Tests.antt =====
-- Runs of dealfinder/live_sources.py, and the theorems at concrete inputs.
use tutorial_dealfinder.Base.{
  false, ℕ, ◌≤◌, ◌≡◌, ◌⊎◌, refl, String, true, Option, none, some, List, [], ◌∷◌, map, keep, all,
  contains, All, IsOnce, length, Dict, lookup, insert, occurs, join, concat, starts_with, str_len,
  cents, if◌then◌else◌, ◌==◌, string_eq, Result, ok, raise,
}
use tutorial_dealfinder.Licensing.{policy_for, source_key, before_colon}
use tutorial_dealfinder.Sources.{
  Json, null, text, number, array, object, nil, cons, end, field, Error, bad_reply, no_lookup,
  unset, Product, Reply, Builtins, prefix, without, parse_price, list_items, paid_ok,
}
use tutorial_dealfinder.Sources.Retail.{
  itunes_item, itunes_search, rapidapi_item, rapidapi_search, apify_item, apify_search, amazon_item,
  amazon_search,
}
use tutorial_dealfinder.Sources.Feeds.{
  as_texts, collect, shopify_item, shopify_store, shopify_search, firecrawl_item, firecrawl_search,
}
use tutorial_dealfinder.Sources.Feeds.Stores.{listed, search_of, IsPart, shopify_search_lem}
use tutorial_dealfinder.Sources.Ebay.{Grant, get_token, ebay_item, ebay_products}
use tutorial_dealfinder.Sources.Ebay.Token.{Call, session_after, IsLive, get_token_lem}
use tutorial_dealfinder.Sources.Bestbuy.{
  distinct_from, drop, batches, product, search_tokens, bestbuy_search, found_in, answered, look_up,
  lookup_skus,
}
use tutorial_dealfinder.Sources.Bestbuy.Slices.{joined}
use tutorial_dealfinder.Sources.Bestbuy.Found.{IsKeyed}
use tutorial_dealfinder.Sources.Bestbuy.Skus.{IsAnswered, lookup_skus_lem}
use tutorial_dealfinder.Sources.Enabled.{
  asked_names, live_sources, check_names, check_launch, enabled_from, enabled_sources,
}
use tutorial_dealfinder.Sources.Enabled.Launch.{
  bestbuy_source, is_bestbuy, IsApart, enabled_sources_lem,
}

program : Unit {0}
unfolding keep all contains lookup insert occurs join concat starts_with str_len policy_for
    source_key before_colon prefix without parse_price list_items paid_ok itunes_item itunes_search
    rapidapi_item rapidapi_search apify_item apify_search amazon_item amazon_search as_texts collect
    shopify_item shopify_store shopify_search firecrawl_item firecrawl_search get_token ebay_item
    ebay_products distinct_from drop batches product search_tokens bestbuy_search found_in answered
    look_up lookup_skus live_sources check_names check_launch enabled_from enabled_sources
program = tt

abbrev str_of : Json → String
str_of (text s) = s
str_of (number a) = "25"
str_of other = "None"

-- a price is written "$25", a number prints as "25", and nothing is in upper case
abbrev builtins : Builtins
builtins = record {
  str = str_of;
  float = λ s. if s == "25" then some (cents 2500) else none;
  split = λ s. s ∷ [];
  split_commas = λ s. s ∷ [];
  strip = λ s. s;
  lower = λ s. s;
  upper = λ s. s;
}

abbrev one : Json → Json
one v = array (cons v nil)

abbrev reply_of : ℕ → Json → Reply
reply_of status v = record { status_code = status; body = some v }

-- an item of Best Buy's and a product of Shopify's
abbrev headphones : Json
headphones = object (
    field "sku" (text "12") (
      field "name" (text "XM5")
        (field "salePrice" (number (cents 2500)) (field "regularPrice" (number (cents 4000)) end))))

abbrev mug : Json
mug = object (
    field "title" (text "Mug") (
      field "variants" (one (object (field "price" (text "$25") end))) (field "id" (text "7") end)))

abbrev skus_reply : Reply
skus_reply = reply_of 200 (object (field "products" (one headphones) end))

-- the price of a product of Best Buy's, its source, and that the SKU "13" is gone
abbrev table : Dict String Product
table =
    (
      "12",
      record {
        id = "bestbuy-12";
        title = "XM5";
        brand = none;
        category = "product";
        price = cents 2500;
        currency = "USD";
        url = "";
        source = "BestBuy:sale";
        image_url = none;
        sku = some "12";
        regular_price = some (cents 2500);
      },
    )
    ∷ []

looked_up :
    lookup_skus builtins
      (λ s. true)
      (some "key")
      (λ slice. some skus_reply)
      ("12" ∷ "13" ∷ "12" ∷ [])
    ≡ ok table
unfolding program
looked_up = refl

-- a lookup that fails is told from a SKU that is gone
failed :
    lookup_skus builtins (λ s. true) (some "key") (λ slice. some (reply_of 500 null)) ("12" ∷ [])
    ≡ raise no_lookup
unfolding program
failed = refl

-- an answered SKU without a sale price is missing as well
unpriced :
    lookup_skus builtins
      (λ s. true)
      (some "key")
      (λ slice.
        some (
          reply_of 200
            (object (field "products" (one (object (field "sku" (text "12") end))) end))))
      ("12" ∷ [])
    ≡ ok []
unfolding program
unpriced = refl

lookup_skus_lem_example :
    let wanted = distinct_from [] ("12" ∷ "13" ∷ "12" ∷ []) in
    let slices = batches (length wanted) wanted in
    IsOnce wanted
    × ((s : String) → contains wanted s ≡ contains ("12" ∷ "13" ∷ "12" ∷ []) s)
    × (joined slices ≡ wanted)
    × All (λ slice. length slice ≤ 100) slices
    × All (IsAnswered builtins (λ slice. some skus_reply) table) slices
    × IsKeyed table
lookup_skus_lem_example =
    lookup_skus_lem builtins (λ s. true) (some "key") (λ slice. some skus_reply)
      ("12" ∷ "13" ∷ "12" ∷ []) table looked_up

-- in production, with a list of sources
abbrev production : String → String → Option String
production sources k =
    if k == "DEALFINDER_ENV"
    then some "production"
    else if k == "DEALFINDER_SOURCES"
    then some sources
    else none

bestbuy_alone :
    enabled_sources builtins (production "BestBuy") none
    ≡ ok (bestbuy_source (production "BestBuy") ∷ [])
unfolding program
bestbuy_alone = refl

no_list : enabled_sources builtins (production "") none ≡ raise unset
unfolding program
no_list = refl

bestbuy_IsApart : IsApart builtins
bestbuy_IsApart = (refl, (refl, (refl, (refl, (refl, (refl, (refl, tt)))))))

enabled_sources_lem_example :
    (enabled_sources builtins (production "Shopify") none
      ≡ ok (bestbuy_source (production "Shopify") ∷ []))
    ⊎ ((e : Error) × (enabled_sources builtins (production "Shopify") none ≡ raise e)
        × ((asked_names builtins "Shopify" ≡ [])
            ⊎ (all (is_bestbuy builtins) (asked_names builtins "Shopify") ≡ false)))
enabled_sources_lem_example =
    enabled_sources_lem builtins (production "Shopify") none bestbuy_IsApart refl

abbrev grant : Grant
grant = record { access_token = "t"; expires_in = some 7200 }

abbrev asked : Call
asked = record { now = 10; later = 11; request = ok grant }

-- handed out again up to a minute before it ends
kept : (get_token (session_after (asked ∷ [])) 7150 7151 (raise bad_reply)).1 ≡ ok "t"
unfolding program
kept = refl

ended : (get_token (session_after (asked ∷ [])) 7151 7152 (raise bad_reply)).1 ≡ raise bad_reply
unfolding program
ended = refl

get_token_lem_example :
    IsLive (asked ∷ []) "t" 7150
    ⊎ ((g : Grant) × (◌≡◌ {A = Result Error Grant} (raise bad_reply) (ok g))
        × (g.access_token ≡ "t"))
get_token_lem_example = get_token_lem (asked ∷ []) 7150 7151 (raise bad_reply) "t" kept

abbrev two_stores : List String
two_stores = "down" ∷ "a" ∷ []

abbrev shop : String → Result Error Reply
shop store =
    if store == "down"
    then raise bad_reply
    else ok (reply_of 200 (object (field "products" (one mug) end)))

mugs :
    map (λ p. p.id) (shopify_search builtins ("Mug" ∷ []) shop 5 "mug" two_stores)
    ≡ "shopify-a-7" ∷ []
unfolding program
mugs = refl

shopify_search_lem_example :
    (shopify_search builtins ("Mug" ∷ []) shop 5 "mug" two_stores
      ≡ listed (map (search_of builtins ("Mug" ∷ []) shop 5 "mug") two_stores))
    × All (IsPart builtins ("Mug" ∷ []) shop 5 "mug") two_stores
shopify_search_lem_example = shopify_search_lem builtins ("Mug" ∷ []) shop 5 "mug" two_stores

-- a listing in another currency is left out
abbrev listing : String → Json
listing currency =
    object (
      field "title" (text "XM5")
        (field "price" (text "$25") (field "currency" (text currency) end)))

dollars_only :
    apify_search builtins
      (some "token")
      "xm5"
      (ok (reply_of 200 (array (cons (listing "MXN") nil))))
    ≡ ok []
unfolding program
dollars_only = refl
