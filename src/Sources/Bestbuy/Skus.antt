-- ===== src/Sources/Bestbuy/Skus.antt =====
-- `lookup_skus` of dealfinder/live_sources.py: "gone" is told from "failed".
use tutorial_dealfinder.Base.{
  ◌≤◌, ◌≡◌, refl, String, Bool, true, false, Option, none, some, List, [], ◌∷◌, contains, All,
  All-weaken, length, IsOnce, Dict, lookup, if◌then◌else◌, ok, or_raise, guard, ◌>>=◌, string_eq,
  nat_beq, nat_beq_iff, arith, bind-ok,
}
use tutorial_dealfinder.Sources.{
  text, ◌or◌, truthy, as_text, as_option, Json, Error, no_lookup, Product, Reply, Builtins, array,
  nil, json_of, get_else, get, parse_price, iterate,
}
use tutorial_dealfinder.Sources.Listing.{Ensures, Maybe, bind-Ensures, when_priced-Ensures}
use tutorial_dealfinder.Sources.Bestbuy.{
  bad_skus, refuse, is_empty, distinct_from, batches, add_found, product, json_lt, found_in,
  answered, look_up, lookup_skus,
}
use tutorial_dealfinder.Sources.Bestbuy.Item.{IsItem, product-IsItem}
use tutorial_dealfinder.Sources.Bestbuy.Slices.{joined, batches_lem, distinct_from_lem}
use tutorial_dealfinder.Sources.Bestbuy.Found.{
  Grows, IsKeyed, IsThere, IsPriced, IsUnder-Grows, add_found-Grows, add_found-IsKeyed,
}

module _ (b : Builtins) where
  product-IsPriced :
      (fallback_title : String) (v : Json) → Ensures (Maybe IsPriced) (product b fallback_title v)
  unfolding product
  product-IsPriced fallback_title v =
      let P = Maybe IsPriced in
      bind-Ensures P (get v "salePrice") _ λ asked.
        when_priced-Ensures IsPriced (parse_price b asked) _ λ price priced.
          bind-Ensures P (get v "regularPrice") _ λ reg.
            bind-Ensures P (get_else v "salePrice" reg) _ λ sale.
              bind-Ensures P (if truthy reg then json_lt sale reg else ok false) _ λ on_sale.
                bind-Ensures P (get v "sku") _ λ sku. bind-Ensures P (get v "name") _ λ name.
                  bind-Ensures P (as_text (name or text fallback_title)) _ λ title.
                    bind-Ensures P (get v "manufacturer") _ λ manufacturer.
                      bind-Ensures P (as_option manufacturer) _ λ brand.
                        bind-Ensures P (get v "url") _ λ link.
                          bind-Ensures P (as_text (link or text "")) _ λ url.
                            bind-Ensures P (get v "image") _
                              λ image. bind-Ensures P (as_option image) _ λ image_url. priced

  -- the product of an item, if it has a sale price, is there
  abbrev pub IsRead : Dict String Product → Json → Type 0
  IsRead found v = (x : Option Product) × IsItem b v x × IsThere found x

  IsThere-Grows :
      (found found' : Dict String Product) (x : Option Product)
      → Grows found found'
      → IsThere found x
      → IsThere found' x
  IsThere-Grows found found' none g h = h
  IsThere-Grows found found' (some p) g h = IsUnder-Grows found found' p.sku g h

  found_in_lem :
      (found found' : Dict String Product) (vs : List Json)
      → found_in b found vs ≡ ok found'
      → Grows found found' × (IsKeyed found → IsKeyed found') × All (IsRead found') vs
  unfolding found_in
  found_in_lem found found' [] h =
      let same : found ≡ found' = ground (arith, h) in rw (← same) (λ s old. old, λ k. k, tt)
  found_in_lem found found' (v ∷ vs) h =
      let (x, read, more) = bind-ok (product b "" v) _ found' h in
      let (grows, keyed, rest) = found_in_lem (add_found found x) found' vs more in
      let (here, there) = add_found-Grows found x in
      let priced : Maybe IsPriced x = (rw read at (product-IsPriced "" v)) in
      let item : IsItem b v x = (rw read at (product-IsItem b "" v)) in
      (
        λ s old. grows s (here s old),
        λ k. keyed (add_found-IsKeyed found x priced k),
        ((x, item, IsThere-Grows (add_found found x) found' x grows there), rest),
      )

  -- the batch was answered with status 200, and each product of the answer is there
  abbrev pub IsAnswered : (List String → Option Reply) → Dict String Product → List String → Type 0
  IsAnswered fetch found batch =
      (r : Reply) × (vs : List Json) × (fetch batch ≡ some r)
      × (r.status_code ≡ 200)
      × ((json_of r >>= λ body. get_else body "products" (array nil) >>= λ ps. iterate ps) ≡ ok vs)
      × All (IsRead found) vs

  IsAnswered-Grows :
      (fetch : List String → Option Reply) (found found' : Dict String Product)
      → Grows found found'
      → (batch : List String) → IsAnswered fetch found batch
      → IsAnswered fetch found' batch
  IsAnswered-Grows fetch found found' grows batch (r, vs, sent, status, listed, all) = (
    r,
    vs,
    sent,
    status,
    listed,
    All-weaken (IsRead found) (IsRead found') vs
        (λ v (x, read, there). (x, read, IsThere-Grows found found' x grows there)) all,
  )

  guard-ok : (test : Bool) (e : Error) (u : Unit {0}) → guard test e ≡ ok u → test ≡ true
  guard-ok true e u h = refl
  guard-ok false e u h = cc

  answered_lem :
      (fetch : List String → Option Reply) (batch : List String) (reply : Option Reply)
      (found found' : Dict String Product)
      → fetch batch ≡ reply
      → answered b reply found ≡ ok found'
      → Grows found found' × (IsKeyed found → IsKeyed found') × IsAnswered fetch found' batch
  unfolding answered
  answered_lem fetch batch none found found' sent h = absurd (ground (arith, h))
  answered_lem fetch batch (some r) found found' sent h =
      let (u, passed, h1) = bind-ok (guard (nat_beq r.status_code 200) no_lookup) _ found' h in
      let (body, is_body, h2) = bind-ok (json_of r) _ found' h1 in
      let (products, is_products, h3) =
        bind-ok (get_else body "products" (array nil)) _ found' h2 in
      let (vs, is_vs, h4) = bind-ok (iterate products) _ found' h3 in
      let (grows, keyed, all) = found_in_lem found found' vs h4 in
      (
        grows,
        keyed,
        (
          r,
          vs,
          sent,
          (nat_beq_iff r.status_code 200).0 (guard-ok _ no_lookup u passed),
          cc (is_body, is_products, is_vs),
          all,
        ),
      )

  look_up_lem :
      (fetch : List String → Option Reply) (found found' : Dict String Product)
      (rest : List (List String))
      → look_up b fetch found rest ≡ ok found'
      → Grows found found' × (IsKeyed found → IsKeyed found') × All (IsAnswered fetch found') rest
  unfolding look_up
  look_up_lem fetch found found' [] h =
      let same : found ≡ found' = ground (arith, h) in rw (← same) (λ s old. old, λ k. k, tt)
  look_up_lem fetch found found' (batch ∷ rest) h =
      let (next, now_found, more) = bind-ok (answered b (fetch batch) found) _ found' h in
      let (grows, keyed, here) = answered_lem fetch batch (fetch batch) found next refl now_found in
      let (grows', keyed', all) = look_up_lem fetch next found' rest more in
      (
        λ s old. grows' s (grows s old),
        λ k. keyed' (keyed k),
        (IsAnswered-Grows fetch next found' grows' batch here, all),
      )

  asked_for :
      (key : Option String) (fetch : List String → Option Reply) (found : Dict String Product)
      (wanted : List String)
      → (if is_empty wanted
          then ok []
          else or_raise key no_lookup >>= λ k. look_up b fetch [] (batches (length wanted) wanted))
        ≡ ok found
      → All (IsAnswered fetch found) (batches (length wanted) wanted) × IsKeyed found
  unfolding lookup batches
  asked_for key fetch found [] h =
      let nothing : found ≡ [] = ground (arith, h) in rw nothing (tt, λ t p h. ground (arith, h))
  asked_for key fetch found (s ∷ wanted) h =
      let (k, is_set, looked) = bind-ok (or_raise key no_lookup) _ found h in
      let (grows, keyed, all) =
        look_up_lem fetch [] found (batches (length (s ∷ wanted)) (s ∷ wanted)) looked in
      (all, keyed (λ t p none_there. ground (arith, none_there)))

  -- A lookup that returns has asked for each SKU once, in slices of at most 100, and every slice was
  -- answered with status 200. Each item that an answer lists has no sale price, or one of zero; or it
  -- gives a product with the item's sale price and SKU, and this SKU, unless it is missing or empty,
  -- is in what the lookup returns. All that the lookup returns stands under its own SKU and has a
  -- price.
  pub lookup_skus_lem :
      (is_sku : String → Bool) (key : Option String) (fetch : List String → Option Reply)
      (skus : List String) (found : Dict String Product)
      → lookup_skus b is_sku key fetch skus ≡ ok found
      → let wanted = distinct_from [] skus in
        let slices = batches (length wanted) wanted in
        IsOnce wanted
        × ((s : String) → contains wanted s ≡ contains skus s)
        × (joined slices ≡ wanted)
        × All (λ slice. length slice ≤ 100) slices
        × All (IsAnswered fetch found) slices
        × IsKeyed found
  unfolding lookup_skus
  lookup_skus_lem is_sku key fetch skus found h =
      let wanted = distinct_from [] skus in
      let (once, same) = distinct_from_lem [] skus tt in
      let (whole, small) = batches_lem (length wanted) wanted (omega arith) in
      let (u, accepted, h1) = bind-ok (refuse (bad_skus is_sku wanted)) _ found h in
      let (all, keyed) = asked_for key fetch found wanted h1 in
      (once, same, whole, small, all, keyed)
