-- ===== src/Sources/Entries.antt =====
-- What each connector of dealfinder/live_sources.py makes of one item of a reply.
use Prim.Native.Char.{code}
use Prim.Native.String.append
use Prim.Native.String.{◌++◌ as str_append}
use tutorial_dealfinder.Base.{
  ℕ, ◌≤◌, Amount, cents, debt, ◌≡◌, refl, true, false, not, ◌||◌, ◌==◌, Bool, String, Option, some,
  List, if◌then◌else◌, is_positive, contains, ok, string_eq, arith, nat_beq,
}
use tutorial_dealfinder.Licensing.{source_key, before_colon}
use tutorial_dealfinder.Sources.{
  Json, text, null, array, nil, object, cons, end, ◌or◌, truthy, get, get_else, as_text, as_option,
  index_0, Product, Builtins, is_zero, parse_price,
}
use tutorial_dealfinder.Sources.Listing.{
  Ensures, Maybe, bind-Ensures, if-Ensures, when_priced-Ensures,
}
use tutorial_dealfinder.Sources.Retail.{
  itunes_item, rapidapi_item, apify_item, amazon_item, price_value, price_currency, is_dollar,
  to_float, from_price,
}
use tutorial_dealfinder.Sources.Feeds.{
  skipped_domains, is_plausible, tags_of, matches, image_src, matched_price, shopify_item,
  firecrawl_item,
}
use tutorial_dealfinder.Sources.Ebay.{ebay_item}
use tutorial_dealfinder.Sources.Bestbuy.{product, json_lt}

abbrev has_colon : String → Bool
has_colon String.[] = false
has_colon (String.◌∷◌ c s) = nat_beq (code c) b':' || has_colon s

-- what follows a colon does not count
before_colon-append :
    (s detail : String) → has_colon s ≡ true → before_colon (str_append s detail) ≡ before_colon s
unfolding before_colon
before_colon-append String.[] detail h = cc
before_colon-append (String.◌∷◌ c s) detail h =
    let step : str_append (String.◌∷◌ c s) detail ≡ String.◌∷◌ c (str_append s detail) =
      λ i. append.cons c s detail i in
    rw step (ground (arith, h, before_colon-append s detail))

-- The licence of the product is the store's own, and its price is not zero.
abbrev pub IsOf : String → Product → Type 0
IsOf name p = (source_key (some p.source) ≡ name) × (is_zero p.price ≡ false)

-- and more than that: its price is positive
abbrev pub IsIncome : Product → Type 0
IsIncome p = IsOf "iTunes" p × (is_positive p.price ≡ true)

-- the licence is Amazon's, and it is in US dollars
abbrev pub IsUsd : Product → Type 0
IsUsd p = (source_key (some p.source) ≡ "Amazon") × (p.currency ≡ "USD")

-- of that store of Shopify's
abbrev pub IsOfStore : String → Product → Type 0
IsOfStore store p = IsOf "Shopify" p × (p.source ≡ str_append "Shopify:" store)

-- from 1 to 100,000 dollars
abbrev pub IsPlausible : Product → Type 0
IsPlausible p = IsOf "Firecrawl" p × ((n : ℕ) × (p.price ≡ cents n) × (100 ≤ n) × (n ≤ 10000000))

is_plausible_lem :
    (price : Amount)
    → is_plausible price ≡ true
    → (n : ℕ) × (price ≡ cents n) × (100 ≤ n) × (n ≤ 10000000)
is_plausible_lem (cents n) h = (n, refl, ground (arith, h), ground (arith, h))
is_plausible_lem (debt n) h = absurd (cc)

-- the two keys of Best Buy's sources
sale_key :
    (on_sale : Bool) → before_colon (if on_sale then "BestBuy:sale" else "BestBuy") ≡ "BestBuy"
unfolding before_colon
sale_key true = refl
sale_key false = refl

module _ (b : Builtins) where
  -- the licence is Apify's, and the currency is that of the US
  abbrev pub IsDollar : Product → Type 0
  IsDollar p = (source_key (some p.source) ≡ "Apify") × ((b.upper p.currency == "USD") ≡ true)

  pub rapidapi_item-IsOf :
      (query : String) (it : Json) → Ensures (Maybe (IsOf "RapidAPI")) (rapidapi_item b query it)
  unfolding rapidapi_item source_key before_colon
  rapidapi_item-IsOf query it =
      let P = Maybe (IsOf "RapidAPI") in
      bind-Ensures P (get it "price") _ λ asked.
        when_priced-Ensures (IsOf "RapidAPI") (parse_price b asked) _ λ price priced.
          bind-Ensures P (get it "store_name") _ λ store_name.
            bind-Ensures P (as_text (store_name or text "store")) _ λ store.
              bind-Ensures P (get it "product_id") _ λ product_id.
                bind-Ensures P (get_else it "product_title" (text "")) _ λ id_title.
                  bind-Ensures P (get it "product_title") _ λ product_title.
                    bind-Ensures P (as_text (product_title or text query)) _ λ title.
                      bind-Ensures P (get it "product_page_url") _ λ page.
                        bind-Ensures P (as_text (page or text "")) _ λ url.
                          bind-Ensures P (get it "product_photos") _ λ photos.
                            bind-Ensures P (index_0 (photos or array (cons null nil))) _ λ photo.
                              bind-Ensures P (as_option photo) _
                                λ image_url. (before_colon-append "RapidAPI:" store refl, priced)

  pub itunes_item-IsOf :
      (query : String) (it : Json) → Ensures (Maybe IsIncome) (itunes_item b query it)
  unfolding itunes_item source_key before_colon
  itunes_item-IsOf query it =
      let P = Maybe IsIncome in
      bind-Ensures P (get it "trackPrice") _ λ track_price.
        bind-Ensures P (get it "collectionPrice") _ λ collection_price.
          when_priced-Ensures IsIncome (parse_price b (track_price or collection_price)) _
            λ price priced.
              if-Ensures P (not (is_positive price)) _ _ (λ _. tt)
                λ positive. bind-Ensures P (get it "trackId") _ λ track.
                  bind-Ensures P (get it "collectionId") _ λ collection.
                    bind-Ensures P (get it "trackName") _ λ track_name.
                      bind-Ensures P (get it "collectionName") _ λ collection_name.
                        bind-Ensures P (as_text (track_name or collection_name or text query)) _
                          λ title. bind-Ensures P (get it "artistName") _ λ artist.
                            bind-Ensures P (as_option artist) _ λ brand.
                              bind-Ensures P (get_else it "primaryGenreName" (text "media")) _
                                λ genre. bind-Ensures P (as_text genre) _ λ category.
                                  bind-Ensures P (get it "trackViewUrl") _ λ track_url.
                                    bind-Ensures P (get it "collectionViewUrl") _ λ collection_url.
                                      bind-Ensures P
                                        (as_text (track_url or collection_url or text "")) _
                                        λ url. bind-Ensures P (get it "artworkUrl100") _ λ artwork.
                                          bind-Ensures P (as_option artwork) _
                                            λ image_url. ((refl, priced), ground (arith, positive))

  pub apify_item-IsDollar :
      (query : String) (it : Json) → Ensures (Maybe IsDollar) (apify_item b query it)
  unfolding apify_item source_key before_colon
  apify_item-IsDollar query it =
      let P = Maybe IsDollar in
      bind-Ensures P (get it "priceNumeric") _ λ numeric. bind-Ensures P (get it "price") _ λ asked.
        if-Ensures P (not (truthy (numeric or from_price b (parse_price b asked)))) _ _ (λ _. tt)
          λ priced. bind-Ensures P (get it "currency") _ λ given.
            bind-Ensures P (as_text (given or text "USD")) _ λ currency.
              if-Ensures P (not (b.upper currency == "USD")) _ _ (λ _. tt)
                λ dollars. bind-Ensures P (get it "merchant") _ λ merchant_name.
                  bind-Ensures P (as_text (merchant_name or text "shopping")) _ λ merchant.
                    bind-Ensures P (get it "title") _ λ name.
                      bind-Ensures P (as_text (name or text "")) _ λ id_title.
                        bind-Ensures P (as_text (name or text query)) _ λ title.
                          bind-Ensures P
                            (to_float b (numeric or from_price b (parse_price b asked))) _
                            λ amount. bind-Ensures P (get it "productUrl") _ λ product_url.
                              bind-Ensures P (as_text (product_url or text "")) _ λ url.
                                bind-Ensures P (get it "imageUrl") _ λ image.
                                  bind-Ensures P (as_option image) _ λ image_url. (
                                    before_colon-append "Apify:" merchant refl,
                                    ground (arith, dollars),
                                  )

  pub amazon_item-IsOf :
      (query : String) (it : Json) → Ensures (Maybe IsUsd) (amazon_item b query it)
  unfolding amazon_item source_key before_colon
  amazon_item-IsOf query it =
      let P = Maybe IsUsd in
      bind-Ensures P (get it "price") _ λ asked.
        bind-Ensures P (price_value b (asked or object end)) _ λ value.
          when_priced-Ensures IsUsd (parse_price b value) _ λ price priced.
            bind-Ensures P (get it "asin") _ λ asin.
              bind-Ensures P (price_currency b (asked or object end)) _ λ given.
                if-Ensures P (not (is_dollar b (given or text "USD"))) _ _ (λ _. tt)
                  λ dollars. bind-Ensures P (get_else it "title" (text "")) _ λ id_title.
                    bind-Ensures P (get it "title") _ λ name.
                      bind-Ensures P (as_text (name or text query)) _ λ title.
                        bind-Ensures P (get it "imageUrl") _
                          λ image. bind-Ensures P (as_option image) _ λ image_url. (refl, refl)

  pub firecrawl_item-IsOf :
      (dollars : String → Option String) (netloc : String → String) (query : String) (it : Json)
      → Ensures (Maybe IsPlausible) (firecrawl_item b dollars netloc query it)
  unfolding firecrawl_item source_key before_colon
  firecrawl_item-IsOf dollars netloc query it =
      let P = Maybe IsPlausible in
      bind-Ensures P (get it "description") _ λ given.
        bind-Ensures P (as_text (given or text "")) _ λ description.
          when_priced-Ensures IsPlausible (matched_price b (dollars description)) _ λ price priced.
            if-Ensures P (not (is_plausible price)) _ _ (λ _. tt)
              λ plausible. bind-Ensures P (get it "url") _ λ address.
                bind-Ensures P (as_text (address or text "")) _ λ url.
                  let d = netloc url in
                  let domain : String = (if d == "" then "web" else d) in
                  if-Ensures P (contains skipped_domains domain) _ _ (λ _. tt)
                    λ sold. bind-Ensures P (get it "title") _ λ name.
                      bind-Ensures P (as_text (address or name or text "")) _ λ id.
                        bind-Ensures P (as_text (name or text query)) _ λ title. (
                          (before_colon-append "Firecrawl:" domain refl, priced),
                          is_plausible_lem price (ground (arith, plausible)),
                        )

  pub ebay_item-IsOf :
      (query : String) (it : Json) → Ensures (Maybe (IsOf "eBay")) (ebay_item b query it)
  unfolding ebay_item source_key before_colon
  ebay_item-IsOf query it =
      let P = Maybe (IsOf "eBay") in
      bind-Ensures P (get it "price") _ λ given.
        bind-Ensures P (get (given or object end) "value") _ λ value.
          when_priced-Ensures (IsOf "eBay") (parse_price b value) _ λ price priced.
            bind-Ensures P (get it "condition") _ λ condition.
              bind-Ensures P (get_else it "itemId" (text "")) _ λ item_id.
                bind-Ensures P (get it "title") _ λ name.
                  bind-Ensures P (as_text (name or text query)) _ λ title.
                    bind-Ensures P (get_else (given or object end) "currency" (text "USD")) _
                      λ given_currency. bind-Ensures P (as_text given_currency) _ λ currency.
                        bind-Ensures P (get it "itemWebUrl") _ λ address.
                          bind-Ensures P (as_text (address or text "")) _ λ url.
                            bind-Ensures P (get it "image") _ λ image.
                              bind-Ensures P (get (image or object end) "imageUrl") _
                                λ image_address.
                                  bind-Ensures P (as_option image_address) _ λ image_url. (
                                    before_colon-append "eBay:" (b.str (condition or text "eBay"))
                                        refl,
                                    priced,
                                  )

  pub product-IsOf :
      (query : String) (it : Json) → Ensures (Maybe (IsOf "BestBuy")) (product b query it)
  unfolding product source_key before_colon
  product-IsOf query it =
      let P = Maybe (IsOf "BestBuy") in
      bind-Ensures P (get it "salePrice") _ λ asked.
        when_priced-Ensures (IsOf "BestBuy") (parse_price b asked) _ λ price priced.
          bind-Ensures P (get it "regularPrice") _ λ reg.
            bind-Ensures P (get_else it "salePrice" reg) _ λ sale.
              bind-Ensures P (if truthy reg then json_lt sale reg else ok false) _ λ on_sale.
                bind-Ensures P (get it "sku") _ λ sku. bind-Ensures P (get it "name") _ λ name.
                  bind-Ensures P (as_text (name or text query)) _ λ title.
                    bind-Ensures P (get it "manufacturer") _ λ manufacturer.
                      bind-Ensures P (as_option manufacturer) _ λ brand.
                        bind-Ensures P (get it "url") _ λ link.
                          bind-Ensures P (as_text (link or text "")) _ λ url.
                            bind-Ensures P (get it "image") _ λ image.
                              bind-Ensures P (as_option image) _
                                λ image_url. (sale_key on_sale, priced)

  pub shopify_item-IsOfStore :
      (tokens : List String) (store query : String) (p : Json)
      → Ensures (Maybe (IsOfStore store)) (shopify_item b tokens store query p)
  unfolding shopify_item source_key before_colon
  shopify_item-IsOfStore tokens store query p =
      let P = Maybe (IsOfStore store) in
      bind-Ensures P (get p "tags") _ λ given_tags.
        bind-Ensures P (tags_of b (given_tags or array nil)) _ λ tags.
          bind-Ensures P (get_else p "title" (text "")) _ λ hay_title.
            bind-Ensures P (get_else p "product_type" (text "")) _ λ product_type.
              if-Ensures P (not (matches b tokens hay_title product_type tags)) _ _ (λ _. tt)
                λ found. bind-Ensures P (get p "variants") _ λ variants.
                  bind-Ensures P (index_0 (variants or array (cons (object end) nil))) _ λ v.
                    bind-Ensures P (get v "price") _ λ asked.
                      when_priced-Ensures (IsOfStore store) (parse_price b asked) _ λ price priced.
                        bind-Ensures P (get p "images") _ λ images.
                          bind-Ensures P (image_src b images) _ λ image.
                            bind-Ensures P (as_option image) _ λ image_url.
                              bind-Ensures P (get p "id") _ λ id.
                                bind-Ensures P (get p "title") _ λ name.
                                  bind-Ensures P (as_text (name or text query)) _ λ title.
                                    bind-Ensures P (get p "vendor") _ λ vendor.
                                      bind-Ensures P (as_option vendor) _ λ brand.
                                        bind-Ensures P (get_else p "handle" (text "")) _ λ handle. (
                                          (before_colon-append "Shopify:" store refl, priced),
                                          refl,
                                        )
