-- ===== src/Sources/Retail.antt =====
-- The connectors of dealfinder/live_sources.py to other people's searches: iTunes, RapidAPI, Apify
-- and Amazon. What the request gives, or raises, is an argument.
use Prim.Native.String.{◌++◌ as str_append}
use tutorial_dealfinder.Base.{
  String, Bool, false, not, ◌||◌, ◌==◌, Option, none, some, List, [], if◌then◌else◌, Result, ok,
  raise, or_raise, ◌>>=◌, string_eq, nat_eq, Amount, cents, is_positive,
}
use tutorial_dealfinder.Sources.{
  Json, null, boolean, number, text, array, object, nil, cons, end, Error, bad_reply, Product,
  Reply, Builtins, truthy, ◌or◌, get_else, get, iterate, is_list, index_0, is_dict, as_text,
  as_option, json_of, prefix, parse_price, when_priced, list_items,
}

module _ (b : Builtins) where
  -- an item of `ItunesSource.search`
  unfoldable pub itunes_item : String → Json → Result Error (Option Product)
  itunes_item query it = do
    track_price ← get it "trackPrice"
    collection_price ← get it "collectionPrice"
    when_priced (parse_price b (track_price or collection_price)) λ price.
        if not (is_positive price) then ok none else do
          track ← get it "trackId"
          collection ← get it "collectionId"
          track_name ← get it "trackName"
          collection_name ← get it "collectionName"
          title ← as_text (track_name or collection_name or text query)
          artist ← get it "artistName"
          brand ← as_option artist
          genre ← get_else it "primaryGenreName" (text "media")
          category ← as_text genre
          track_url ← get it "trackViewUrl"
          collection_url ← get it "collectionViewUrl"
          url ← as_text (track_url or collection_url or text "")
          artwork ← get it "artworkUrl100"
          image_url ← as_option artwork
          ok (
              some (record {
                id = str_append "itunes-" (b.str (track or collection));
                title = prefix 120 title;
                brand = brand;
                category = category;
                price = price;
                currency = "USD";
                url = url;
                source = "iTunes";
                image_url = image_url;
                sku = none;
                regular_price = none;
              }))

  -- `ItunesSource.search`
  unfoldable pub itunes_search : String → Result Error Reply → Result Error (List Product)
  itunes_search query reply = do
    r ← reply
    body ← json_of r
    results ← get_else body "results" (array nil)
    vs ← iterate results
    list_items (itunes_item query) vs

  -- an item of `RapidApiSource.search`
  unfoldable pub rapidapi_item : String → Json → Result Error (Option Product)
  rapidapi_item query it = do
    asked ← get it "price"
    when_priced (parse_price b asked) λ price. do
      store_name ← get it "store_name"
      store ← as_text (store_name or text "store")
      product_id ← get it "product_id"
      id_title ← get_else it "product_title" (text "")
      product_title ← get it "product_title"
      title ← as_text (product_title or text query)
      page ← get it "product_page_url"
      url ← as_text (page or text "")
      photos ← get it "product_photos"
      photo ← index_0 (photos or array (cons null nil))
      image_url ← as_option photo
      ok (
          some (record {
            id = str_append "rapidapi-" (prefix 40 (b.str (product_id or id_title)));
            title = prefix 120 title;
            brand = some store;
            category = "product";
            price = price;
            currency = "USD";
            url = url;
            source = str_append "RapidAPI:" store;
            image_url = image_url;
            sku = none;
            regular_price = none;
          }))

  -- `RapidApiSource.search`
  unfoldable pub rapidapi_search :
      Option String → String → Result Error Reply → Result Error (List Product)
  rapidapi_search none query reply = ok []
  rapidapi_search (some key) query reply = do
    r ← reply
    body ← json_of r
    found ← get body "data"
    products ← get_else (found or object end) "products" (array nil)
    vs ← iterate products
    list_items (rapidapi_item query) vs

  -- `float(price)`, of a price that is true
  abbrev pub to_float : Json → Result Error Amount
  to_float (number a) = ok a
  to_float (text s) = or_raise (b.float s) bad_reply
  to_float (boolean v) = ok (cents 100)
  to_float null = raise bad_reply
  to_float (array vs) = raise bad_reply
  to_float (object vs) = raise bad_reply

  abbrev pub from_price : Option Amount → Json
  from_price none = null
  from_price (some a) = number a

  -- an item of `ApifySource.search`
  unfoldable pub apify_item : String → Json → Result Error (Option Product)
  apify_item query it = do
    numeric ← get it "priceNumeric"
    asked ← get it "price"
    let price = numeric or from_price (parse_price b asked)
    if not (truthy price) then ok none else do
      given ← get it "currency"
      currency ← as_text (given or text "USD")
      if not (b.upper currency == "USD") then ok none else do
        merchant_name ← get it "merchant"
        merchant ← as_text (merchant_name or text "shopping")
        name ← get it "title"
        id_title ← as_text (name or text "")
        title ← as_text (name or text query)
        amount ← to_float price
        product_url ← get it "productUrl"
        url ← as_text (product_url or text "")
        image ← get it "imageUrl"
        image_url ← as_option image
        ok (
            some (record {
              id = str_append "apify-" (prefix 40 id_title);
              title = prefix 120 title;
              brand = some merchant;
              category = "product";
              price = amount;
              currency = currency;
              url = url;
              source = str_append "Apify:" merchant;
              image_url = image_url;
              sku = none;
              regular_price = none;
            }))

  -- `ApifySource.search`
  unfoldable pub apify_search :
      Option String → String → Result Error Reply → Result Error (List Product)
  apify_search none query reply = ok []
  apify_search (some token) query reply = do
    r ← reply
    body ← json_of r
    vs ← (if is_list body then iterate body else ok [])
    list_items (apify_item query) vs

  -- the price and the currency of `price_obj`
  abbrev pub price_value : Json → Result Error Json
  price_value v = if is_dict v then get v "value" else ok v

  abbrev pub price_currency : Json → Result Error Json
  price_currency v = if is_dict v then get v "currency" else ok null

  -- `currency in ("USD", "$")`
  abbrev pub is_dollar : Json → Bool
  is_dollar (text s) = s == "USD" || s == "$"
  is_dollar null = false
  is_dollar (boolean v) = false
  is_dollar (number a) = false
  is_dollar (array vs) = false
  is_dollar (object vs) = false

  abbrev pub asin_url : Json → String
  asin_url asin = if truthy asin then str_append "https://www.amazon.com/dp/" (b.str asin) else ""

  -- an item of `AmazonSource.search`
  -- `round(price, 2)` changes no price that is a whole number of cents; of another it may make 0.
  unfoldable pub amazon_item : String → Json → Result Error (Option Product)
  amazon_item query it = do
    asked ← get it "price"
    let price_obj = asked or object end
    value ← price_value price_obj
    when_priced (parse_price b value) λ price. do
      asin ← get it "asin"
      given ← price_currency price_obj
      if not (is_dollar (given or text "USD")) then ok none else do
        id_title ← get_else it "title" (text "")
        name ← get it "title"
        title ← as_text (name or text query)
        image ← get it "imageUrl"
        image_url ← as_option image
        ok (
            some (record {
              id =
                  str_append "amazon-"
                    (if truthy asin then b.str asin else prefix 40 (b.str id_title));
              title = prefix 120 title;
              brand = some "Amazon";
              category = "product";
              price = price;
              currency = "USD";
              url = asin_url asin;
              source = "Amazon";
              image_url = image_url;
              sku = none;
              regular_price = none;
            }))

  -- `AmazonSource.search`
  unfoldable pub amazon_search :
      Option String → String → Result Error Reply → Result Error (List Product)
  amazon_search none query reply = ok []
  amazon_search (some token) query reply = do
    r ← reply
    body ← json_of r
    vs ← (if is_list body then iterate body else ok [])
    list_items (amazon_item query) vs
