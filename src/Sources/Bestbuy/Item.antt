-- ===== src/Sources/Bestbuy/Item.antt =====
-- What `_product` of `BestBuySource` in dealfinder/live_sources.py reads off an item.
use tutorial_dealfinder.Base.{
  ◌≡◌, ◌⊎◌, refl, String, true, false, Option, none, some, if◌then◌else◌, Result, ok, ◌>>=◌, Amount,
  raise, Bool-cases, inl, inr,
}
use tutorial_dealfinder.Sources.{
  Json, text, ◌or◌, truthy, as_text, as_option, get, get_else, Product, Error, Builtins,
  parse_price, is_zero, when_priced,
}
use tutorial_dealfinder.Sources.Listing.{Ensures, bind-Ensures}
use tutorial_dealfinder.Sources.Bestbuy.{product, json_lt, str_or_none}

-- there is no price, or it is zero
abbrev pub IsUnpriced : Option Amount → Type 0
IsUnpriced price = (price ≡ none) ⊎ ((a : Amount) × (price ≡ some a) × (is_zero a ≡ true))

-- `bind-Ensures` with the equation of what is bound
bind-known :
    {A : Type 0} (P : Option Product → Type 0) (m : Result Error A)
    (f : A → Result Error (Option Product))
    → ((a : A) → m ≡ ok a → Ensures P (f a))
    → Ensures P (m >>= f)
bind-known P (ok a) f h = h a refl
bind-known P (raise e) f h = tt

when_priced-known :
    (P : Option Product → Type 0) (price : Option Amount)
    (f : Amount → Result Error (Option Product))
    → (IsUnpriced price → P none)
    → ((a : Amount) → price ≡ some a → is_zero a ≡ false → Ensures P (f a))
    → Ensures P (when_priced price f)
when_priced-known P none f h k = h (inl refl)
when_priced-known P (some a) f h k = elim (Bool-cases (is_zero a)) [
  | inl e ↦ rw e (h (inr (a, refl, e)))
  | inr e ↦ rw e (k a refl e)
]

module _ (b : Builtins) where
  -- the product has the price and the SKU of the item
  abbrev pub IsSold : Json → Option Amount → Option Product → Type 0
  IsSold v price x =
      (a : Amount) × (sku : Json) × (p : Product) × (price ≡ some a)
      × (is_zero a ≡ false)
      × (get v "sku" ≡ ok sku)
      × (x ≡ some p)
      × (p.price ≡ a)
      × (p.sku ≡ str_or_none b.str sku)

  -- no product is made exactly of an item without a sale price
  abbrev pub IsItem : Json → Option Product → Type 0
  IsItem v x =
      (asked : Json) × (get v "salePrice" ≡ ok asked)
      × ((IsUnpriced (parse_price b asked) × (x ≡ none)) ⊎ IsSold v (parse_price b asked) x)

  pub product-IsItem :
      (fallback_title : String) (v : Json) → Ensures (IsItem v) (product b fallback_title v)
  unfolding product
  product-IsItem fallback_title v =
      let P = IsItem v in
      bind-known P (get v "salePrice") _ λ asked at.
        when_priced-known P (parse_price b asked) _
          (λ none_given. (asked, at, inl (none_given, refl)))
          λ price priced positive. bind-Ensures P (get v "regularPrice") _ λ reg.
            bind-Ensures P (get_else v "salePrice" reg) _ λ sale.
              bind-Ensures P (if truthy reg then json_lt sale reg else ok false) _ λ on_sale.
                bind-known P (get v "sku") _ λ sku sku_at. bind-Ensures P (get v "name") _ λ name.
                  bind-Ensures P (as_text (name or text fallback_title)) _ λ title.
                    bind-Ensures P (get v "manufacturer") _ λ manufacturer.
                      bind-Ensures P (as_option manufacturer) _ λ brand.
                        bind-Ensures P (get v "url") _ λ link.
                          bind-Ensures P (as_text (link or text "")) _ λ url.
                            bind-Ensures P (get v "image") _ λ image.
                              bind-Ensures P (as_option image) _ λ image_url. (
                                asked,
                                at,
                                inr (price, sku, _, priced, positive, sku_at, refl, refl, refl),
                              )
