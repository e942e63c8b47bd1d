-- ===== src/Sources/Bestbuy.antt =====
-- `BestBuySource` of dealfinder/live_sources.py. What each request gives, or raises, is an argument;
-- the pause between requests is left out.
pub mod Slices
pub mod Found
pub mod Item
pub mod Skus
use Prim.Native.String.{◌++◌ as str_append}
use Prim.Native.Char.{code}
use tutorial_dealfinder.Base.{
  keep, contains, zero, suc, ℕ, String, Bool, true, false, not, ◌==◌, Option, none, some, List, [],
  ◌∷◌, ◌++◌, nat_beq, ltb, if◌then◌else◌, Result, ok, raise, or_raise, guard, ◌>>=◌, ◌>>◌,
  string_eq, nat_eq, Amount, cents, debt, ◌+◌, take, str_len, Dict, insert, length,
}
use tutorial_dealfinder.Sources.{
  Json, null, boolean, number, text, array, object, nil, Error, bad_reply, no_lookup, Product,
  Reply, Builtins, truthy, ◌or◌, get_else, get, iterate, as_text, as_option, json_of, prefix,
  parse_price, when_priced, list_items, no_lookup, not_a_sku,
}

-- `p.get("salePrice", reg) < reg`, of two JSON values
abbrev pub amount_lt : Amount → Amount → Bool
amount_lt (cents n) (cents m) = ltb n m
amount_lt (debt n) (cents m) = ltb 0 (n + m)
amount_lt (cents n) (debt m) = false
amount_lt (debt n) (debt m) = ltb m n

abbrev pub json_lt : Json → Json → Result Error Bool
json_lt (number a) (number c) = ok (amount_lt a c)
json_lt v w = raise bad_reply

-- `str(v) if v is not None else None`
abbrev pub str_or_none : (Json → String) → Json → Option String
str_or_none str null = none
str_or_none str (boolean v) = some (str (boolean v))
str_or_none str (number a) = some (str (number a))
str_or_none str (text s) = some (str (text s))
str_or_none str (array vs) = some (str (array vs))
str_or_none str (object vs) = some (str (object vs))

-- the SKUs that are none; `is_sku` is the regular expression of up to twelve digits
abbrev pub bad_skus : (String → Bool) → List String → List String
bad_skus is_sku wanted = keep (λ s. not (is_sku s)) wanted

-- `if bad: raise ValueError(...)`
abbrev pub refuse : List String → Result Error (Unit {0})
refuse [] = ok tt
refuse (s ∷ bad) = raise (not_a_sku s)

abbrev pub is_empty : List String → Bool
is_empty [] = true
is_empty (s ∷ skus) = false

-- `list(dict.fromkeys(...))`
unfoldable pub distinct_from : List String → List String → List String
distinct_from seen [] = []
distinct_from seen (s ∷ skus) =
    let again = distinct_from seen skus in
    let rest = distinct_from (seen ++ s ∷ []) skus in if contains seen s then again else s ∷ rest

-- `wanted[i:]`
unfoldable pub drop : ℕ → List String → List String
drop zero xs = xs
drop (suc n) [] = []
drop (suc n) (x ∷ xs) = drop n xs

-- the slices of 100, on fuel
unfoldable pub batches : ℕ → List String → List (List String)
batches zero skus = []
batches (suc fuel) [] = []
batches (suc fuel) (s ∷ skus) = take 100 (s ∷ skus) ∷ batches fuel (drop 100 (s ∷ skus))

-- `found[x.sku] = x`, if there is a product with a SKU
abbrev pub add_sku : Dict String Product → Option String → Product → Dict String Product
add_sku found none p = found
add_sku found (some sku) p = if sku == "" then found else insert found sku p

abbrev pub add_found : Dict String Product → Option Product → Dict String Product
add_found found none = found
add_found found (some p) = add_sku found p.sku p

module _ (b : Builtins) where
  -- `_product`
  unfoldable pub product : String → Json → Result Error (Option Product)
  product fallback_title p = do
    asked ← get p "salePrice"
    when_priced (parse_price b asked) λ price. do
      reg ← get p "regularPrice"
      sale ← get_else p "salePrice" reg
      on_sale ← (if truthy reg then json_lt sale reg else ok false)
      sku ← get p "sku"
      name ← get p "name"
      title ← as_text (name or text fallback_title)
      manufacturer ← get p "manufacturer"
      brand ← as_option manufacturer
      link ← get p "url"
      url ← as_text (link or text "")
      image ← get p "image"
      image_url ← as_option image
      ok (
          some (record {
            id = str_append "bestbuy-" (b.str sku);
            title = prefix 120 title;
            brand = brand;
            category = "product";
            price = price;
            currency = "USD";
            url = url;
            source = if on_sale then "BestBuy:sale" else "BestBuy";
            image_url = image_url;
            sku = str_or_none b.str sku;
            regular_price = parse_price b reg;
          }))

  -- `search`, of the tokens of the query
  unfoldable pub search_tokens :
      String → (List String → Result Error Reply) → List String → Result Error (List Product)
  search_tokens query fetch [] = ok []
  search_tokens query fetch (t ∷ tokens) = do
    r ← fetch (t ∷ tokens)
    if not (nat_beq r.status_code 200) then ok [] else do
      body ← json_of r
      products ← get_else body "products" (array nil)
      vs ← iterate products
      list_items (product query) vs

  -- `search`; `words` finds the words of a text
  unfoldable pub bestbuy_search :
      (String → List String)
      → Option String
      → String
      → (List String → Result Error Reply)
      → Result Error (List Product)
  bestbuy_search words none query fetch = ok []
  bestbuy_search words (some key) query fetch =
      search_tokens query fetch (take 6 (keep (λ t. ltb 1 (str_len t)) (words (b.lower query))))

  -- the loop over the products of a batch
  unfoldable pub found_in : Dict String Product → List Json → Result Error (Dict String Product)
  found_in found [] = ok found
  found_in found (p ∷ vs) = do x ← product "" p; found_in (add_found found x) vs

  -- the answer to a batch; a request that raises `httpx.HTTPError` gives nothing
  unfoldable pub answered : Option Reply → Dict String Product → Result Error (Dict String Product)
  answered none found = raise no_lookup
  answered (some r) found = do
    guard (nat_beq r.status_code 200) no_lookup
    body ← json_of r
    products ← get_else body "products" (array nil)
    vs ← iterate products
    found_in found vs

  -- the loop over the batches
  unfoldable pub look_up :
      (List String → Option Reply)
      → Dict String Product
      → List (List String)
      → Result Error (Dict String Product)
  look_up fetch found [] = ok found
  look_up fetch found (batch ∷ rest) = do
    found' ← answered (fetch batch) found
    look_up fetch found' rest

  -- `lookup_skus`
  unfoldable pub lookup_skus :
      (String → Bool)
      → Option String
      → (List String → Option Reply)
      → List String
      → Result Error (Dict String Product)
  lookup_skus is_sku key fetch skus =
      let wanted = distinct_from [] skus in
      refuse (bad_skus is_sku wanted)
      >> (if is_empty wanted
          then ok []
          else or_raise key no_lookup >>= λ k. look_up fetch [] (batches (length wanted) wanted))
