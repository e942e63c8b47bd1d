-- ===== src/Sources/Feeds/Stores.antt =====
-- `ShopifySource.search` of dealfinder/live_sources.py, whatever the stores answer.
use mathlib.Core.List.{append-nil}
use tutorial_dealfinder.Base.{
  refl, sym, ap, subst, map, ◌∙◌, ◌++◌, ℕ, suc, ◌+◌, ◌≤◌, max, ◌≡◌, String, Option, none, some,
  List, [], ◌∷◌, All, length, Result, ok, raise, ◌>>=◌, arith, leb, Bool-cases, inl, inr,
}
use tutorial_dealfinder.Sources.{Json, Error, Product, Reply, Builtins}
use tutorial_dealfinder.Sources.Listing.{Ensures, Maybe}
use tutorial_dealfinder.Sources.Entries.{IsOfStore, shopify_item-IsOfStore}
use tutorial_dealfinder.Sources.Feeds.{
  take_item, collect, collect_feed, store_feed, shopify_item, shopify_store, shopify_search,
}

module _ (P : Product → Type 0) where
  -- all that is listed meets `P`, and it is no more than the bound
  abbrev pub IsWithin : ℕ → List Product → Type 0
  IsWithin bound ps = All P ps × (length ps ≤ bound)

  take_item-IsWithin :
      (limit n : ℕ) (x : Result Error (Option Product)) (skipped more : List Product)
      → Ensures (Maybe P) x
      → All P skipped × (length skipped + n ≤ max (suc n) limit)
      → All P more × (length more + suc n ≤ max (suc (suc n)) limit)
      → All P (take_item limit n x skipped more)
        × (length (take_item limit n x skipped more) + n ≤ max (suc n) limit)
  take_item-IsWithin limit n (raise e) skipped more h s m = (tt, omega arith)
  take_item-IsWithin limit n (ok none) skipped more h s m = s
  take_item-IsWithin limit n (ok (some p)) skipped more h s m =
      elim (Bool-cases (leb limit (suc n))) [
        | inl full ↦ rw full ((h, tt), omega arith)
        | inr room ↦ rw room ((h, m.0), ground (arith, room, m.1))
      ]

  collect-IsWithin :
      (read : Json → Result Error (Option Product)) (limit n : ℕ) (vs : List Json)
      → ((v : Json) → Ensures (Maybe P) (read v))
      → All P (collect read limit n vs) × (length (collect read limit n vs) + n ≤ max (suc n) limit)
  unfolding collect
  collect-IsWithin read limit n [] h = (tt, omega arith)
  collect-IsWithin read limit n (v ∷ vs) h =
      take_item-IsWithin limit n (read v) _ _ (h v) (collect-IsWithin read limit n vs h)
        (collect-IsWithin read limit (suc n) vs h)

  collect_feed-IsWithin :
      (b : Builtins) (read : Json → Result Error (Option Product)) (limit : ℕ)
      (found : Result Error (List Json))
      → ((v : Json) → Ensures (Maybe P) (read v))
      → IsWithin (max 1 limit) (collect_feed b read limit found)
  collect_feed-IsWithin b read limit (raise e) h = (tt, omega arith)
  collect_feed-IsWithin b read limit (ok vs) h =
      let (all, few) = collect-IsWithin read limit 0 vs h in (all, omega arith)

-- what all the stores list, one after the other
abbrev pub listed : List (List Product) → List Product
listed [] = []
listed (ps ∷ rest) = ps ++ listed rest

module _ (b : Builtins) (tokens : List String) (fetch : String → Result Error Reply) (limit : ℕ)
    (query : String) where
  -- what a search of one store lists
  abbrev pub search_of : String → List Product
  search_of store = shopify_search b tokens fetch limit query (store ∷ [])

  -- a store's part of a search is no more than the limit, and one where the limit is 0
  abbrev pub IsPart : String → Type 0
  IsPart store = All (IsOfStore store) (search_of store) × (length (search_of store) ≤ max 1 limit)

  search_of-store :
      (store : String) → search_of store ≡ shopify_store b tokens limit query store (fetch store)
  unfolding shopify_search
  search_of-store store = append-nil (shopify_store b tokens limit query store (fetch store))

  store-IsPart : (store : String) → IsPart store
  unfolding shopify_store
  store-IsPart store =
      subst (λ ps. All (IsOfStore store) ps × (length ps ≤ max 1 limit))
        (sym (search_of-store store))
        (collect_feed-IsWithin (IsOfStore store) b (shopify_item b tokens store query) limit
          (fetch store >>= store_feed b) (shopify_item-IsOfStore b tokens store query))

  -- A search of several stores lists what the search of each store alone lists, one after the other,
  -- so a store that fails or sends nonsense takes nothing from the others. A store's part is of that
  -- store, under the licence of Shopify, with prices other than zero, and is at most `limit` products,
  -- or one where the limit is 0.
  pub shopify_search_lem :
      (stores : List String)
      → (shopify_search b tokens fetch limit query stores ≡ listed (map search_of stores))
        × All IsPart stores
  unfolding shopify_search
  shopify_search_lem [] = (refl, tt)
  shopify_search_lem (store ∷ rest) =
      let (parts, within) = shopify_search_lem rest in
      (
        ap (λ ps. shopify_store b tokens limit query store (fetch store) ++ ps) parts
            ∙ ap (λ ps. ps ++ listed (map search_of rest)) (sym (search_of-store store)),
        (store-IsPart store, within),
      )
