-- ===== src/Sources/Feeds.antt =====
-- The connectors of dealfinder/live_sources.py to open feeds: Shopify and Firecrawl. The regular
-- expressions, `urlparse` and what each request gives, or raises, are arguments.
pub mod Stores
use Prim.Native.String.{◌++◌ as str_append}
use tutorial_dealfinder.Base.{
  keep, contains, all, join, concat, occurs, suc, ℕ, String, Bool, false, not, ◌&&◌, ◌==◌, Option,
  none, some, List, [], ◌∷◌, ◌++◌, map, nat_beq, leb, if◌then◌else◌, Result, ok, raise, ◌>>=◌, ◌>>◌,
  string_eq, nat_eq, Amount, cents, debt,
}
use tutorial_dealfinder.Sources.{
  keys_of, items_of, Json, null, boolean, number, text, array, object, nil, cons, end, Error,
  bad_reply, Product, Reply, Builtins, truthy, ◌or◌, get_else, get, iterate, index_0, as_text,
  as_option, json_of, prefix, parse_price, when_priced, list_items, set_key,
}

-- `FirecrawlSource._SKIP`
abbrev pub skipped_domains : List String
skipped_domains =
    "rtings.com" ∷ "nytimes.com" ∷ "techradar.com" ∷ "cnet.com" ∷ "tomsguide.com" ∷ "wired.com"
    ∷ "theverge.com" ∷ "pcmag.com" ∷ "forbes.com" ∷ "reddit.com" ∷ "youtube.com" ∷ "wikipedia.org"
    ∷ "wirecutter.com" ∷ "businessinsider.com" ∷ []

-- `ShopifySource.DEFAULT_STORES`
abbrev pub default_stores : List String
default_stores =
    "deathwishcoffee.com" ∷ "www.allbirds.com" ∷ "www.kith.com" ∷ "chubbiesshorts.com"
    ∷ "brooklinen.com" ∷ "drsquatch.com" ∷ "peakdesign.com" ∷ "tentree.com" ∷ "www.spigen.com"
    ∷ "www.hexclad.com" ∷ []

-- `1 <= price <= 100000`
abbrev pub is_plausible : Amount → Bool
is_plausible (cents n) = leb 100 n && leb n 10000000
is_plausible (debt n) = false

-- the texts of a list, each of which `join` takes
unfoldable pub as_texts : List Json → Result Error (List String)
as_texts [] = ok []
as_texts (v ∷ vs) = do s ← as_text v; texts ← as_texts vs; ok (s ∷ texts)

-- one turn of a store's loop: an exception ends it, and so does the limit
abbrev pub take_item :
    ℕ → ℕ → Result Error (Option Product) → List Product → List Product → List Product
take_item limit per_store (raise e) skipped more = []
take_item limit per_store (ok none) skipped more = skipped
take_item limit per_store (ok (some p)) skipped more =
    p ∷ (if leb limit (suc per_store) then [] else more)

-- One store's loop with its `break`. What is listed before an exception stays.
unfoldable pub collect : (Json → Result Error (Option Product)) → ℕ → ℕ → List Json → List Product
collect read limit per_store [] = []
collect read limit per_store (v ∷ vs) =
    let skipped = collect read limit per_store vs in
    let more = collect read limit (suc per_store) vs in
    take_item limit per_store (read v) skipped more

module _ (b : Builtins) where
  -- `ShopifySource._stores`
  unfoldable pub stores : (String → Option String) → List String
  stores env = elim (set_key (env "SHOPIFY_STORES")) [
    | none ↦ default_stores
    | some names ↦ keep (λ s. not (s == "")) (map b.strip (b.split_commas names))
  ]

  -- `tags`: of one text, its parts
  abbrev pub tags_of : Json → Result Error (List String)
  tags_of (text s) = ok (b.split_commas s)
  tags_of (array vs) = as_texts (items_of vs)
  tags_of (object vs) = as_texts (keys_of vs)
  tags_of null = raise bad_reply
  tags_of (boolean v) = raise bad_reply
  tags_of (number a) = raise bad_reply

  -- all of the tokens stand in `hay`
  abbrev pub matches : List String → Json → Json → List String → Bool
  matches tokens title product_type tags =
      let hay = b.lower (join " " (b.str title ∷ b.str product_type ∷ join " " tags ∷ [])) in
      all (λ t. occurs t hay) tokens

  -- `imgs[0].get("src") if imgs else None`
  abbrev pub image_src : Json → Result Error Json
  image_src images = if truthy images then (index_0 images >>= λ img. get img "src") else ok null

  -- a product of one store's feed
  unfoldable pub shopify_item : List String → String → String → Json → Result Error (Option Product)
  shopify_item tokens store query p = do
    given_tags ← get p "tags"
    tags ← tags_of (given_tags or array nil)
    hay_title ← get_else p "title" (text "")
    product_type ← get_else p "product_type" (text "")
    if not (matches tokens hay_title product_type tags) then ok none else do
      variants ← get p "variants"
      v ← index_0 (variants or array (cons (object end) nil))
      asked ← get v "price"
      when_priced (parse_price b asked) λ price. do
        images ← get p "images"
        image ← image_src images
        image_url ← as_option image
        id ← get p "id"
        name ← get p "title"
        title ← as_text (name or text query)
        vendor ← get p "vendor"
        brand ← as_option vendor
        handle ← get_else p "handle" (text "")
        ok (
            some (record {
              id = concat ("shopify-" ∷ store ∷ "-" ∷ b.str id ∷ []);
              title = prefix 120 title;
              brand = brand;
              category = "product";
              price = price;
              currency = "USD";
              url = concat ("https://" ∷ store ∷ "/products/" ∷ b.str handle ∷ []);
              source = str_append "Shopify:" store;
              image_url = image_url;
              sku = none;
              regular_price = none;
            }))

  -- the products of a store's reply
  abbrev pub feed : Reply → Result Error (List Json)
  feed r = json_of r >>= λ body. get_else body "products" (array nil) >>= λ vs. iterate vs

  -- a status other than 200 lists nothing
  abbrev pub store_feed : Reply → Result Error (List Json)
  store_feed r = if nat_beq r.status_code 200 then feed r else ok []

  -- the loop over a store's products, if there are any
  abbrev pub collect_feed :
      (Json → Result Error (Option Product)) → ℕ → Result Error (List Json) → List Product
  collect_feed read limit (raise e) = []
  collect_feed read limit (ok vs) = collect read limit 0 vs

  -- what one store adds to `out`
  unfoldable pub shopify_store :
      List String → ℕ → String → String → Result Error Reply → List Product
  shopify_store tokens limit query store reply =
      collect_feed (shopify_item tokens store query) limit (reply >>= store_feed)

  -- `ShopifySource.search`
  unfoldable pub shopify_search :
      List String → (String → Result Error Reply) → ℕ → String → List String → List Product
  shopify_search tokens fetch limit query [] = []
  shopify_search tokens fetch limit query (store ∷ rest) =
      shopify_store tokens limit query store (fetch store)
      ++ shopify_search tokens fetch limit query rest

  -- `_f(m.group(1)) if m else None`
  abbrev pub matched_price : Option String → Option Amount
  matched_price none = none
  matched_price (some s) = parse_price b (text s)

  -- an item of `FirecrawlSource.search`; `dollars` finds the price in a text, and `netloc` is the
  -- domain of an address less "www."
  unfoldable pub firecrawl_item :
      (String → Option String) → (String → String) → String → Json → Result Error (Option Product)
  firecrawl_item dollars netloc query it = do
    given ← get it "description"
    description ← as_text (given or text "")
    when_priced (matched_price (dollars description)) λ price.
        if not (is_plausible price) then ok none else do
          address ← get it "url"
          url ← as_text (address or text "")
          let domain = (let d = netloc url in if d == "" then "web" else d)
          if contains skipped_domains domain then ok none else do
            name ← get it "title"
            id ← as_text (address or name or text "")
            title ← as_text (name or text query)
            ok (
                some (record {
                  id = str_append "firecrawl-" (prefix 60 id);
                  title = prefix 120 title;
                  brand = some domain;
                  category = "product";
                  price = price;
                  currency = "USD";
                  url = url;
                  source = str_append "Firecrawl:" domain;
                  image_url = none;
                  sku = none;
                  regular_price = none;
                }))

  -- `FirecrawlSource.search`
  unfoldable pub firecrawl_search :
      (String → Option String)
      → (String → String)
      → Option String
      → String
      → Result Error Reply
      → Result Error (List Product)
  firecrawl_search dollars netloc none query reply = ok []
  firecrawl_search dollars netloc (some key) query reply = do
    r ← reply
    body ← json_of r
    found ← get body "data"
    vs ← iterate (found or array nil)
    list_items (firecrawl_item dollars netloc query) vs
