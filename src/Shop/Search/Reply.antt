-- ===== src/Shop/Search/Reply.antt =====
-- What a reply of `shop_search` of dealfinder/shop.py shows under the stores' terms.
use tutorial_dealfinder.Licensing.{may_verdict}
use tutorial_dealfinder.Base.{
  keep, IsOnce, IsOnce-append_once, contains-append_once, any, ◌==◌, ℕ, ◌≤◌, ◌≡◌, String, Bool,
  false, ◌||◌, Option, none, some, List, [], ◌∷◌, map, take, length, length-take, All, All-take,
  contains, arith, string_eq, pair_eq, list_eq, ◌∙◌,
}
use tutorial_dealfinder.Shop.Scoring.{Mode, Estimates, score_offers}
use tutorial_dealfinder.Shop.Scoring.Licensed.{IsLicensed, score_offers-IsLicensed}
use tutorial_dealfinder.Shop.Search.{
  Attribution, required, mention, attribute, attribution_for, Found, median_or_zero, shop_search,
}

-- the attribution is the one asked for
abbrev pub asks : Attribution → Option Attribution → Bool
asks a none = false
asks a (some b) = b == a

contains-mention :
    (out : List Attribution) (o : Option Attribution) (a : Attribution)
    → contains (mention out o) a ≡ (contains out a || asks a o)
unfolding mention
contains-mention out none a = ground arith
contains-mention out (some b) a = contains-append_once out b a

-- The list of attributions holds what was listed and what one of the sources requires.
contains-attribute :
    (sources : List (Option String)) (out : List Attribution) (a : Attribution)
    → contains (attribute out sources) a
      ≡ (contains out a || any (λ s. asks a (required s)) sources)
unfolding attribute any
contains-attribute [] out a = ground arith
contains-attribute (s ∷ sources) out a =
    contains-attribute sources (mention out (required s)) a
    ∙ ground (arith, contains-mention out (required s) a)

IsOnce-mention :
    (out : List Attribution) (o : Option Attribution) → IsOnce out → IsOnce (mention out o)
unfolding mention
IsOnce-mention out none h = h
IsOnce-mention out (some a) h = IsOnce-append_once out a h

IsOnce-attribute :
    (sources : List (Option String)) (out : List Attribution)
    → IsOnce out
    → IsOnce (attribute out sources)
unfolding attribute
IsOnce-attribute [] out h = h
IsOnce-attribute (s ∷ sources) out h =
    IsOnce-attribute sources (mention out (required s)) (IsOnce-mention out (required s) h)

-- Whatever the stores and eBay answer, in either mode: a shopper search shows at most `k` rows, all
-- from stores that may be shown beside others; a row has no price signal in check mode or where its
-- store's terms forbid ratings; and the attributions are exactly those that a shown row's store
-- requires, once each.
pub shop_search-IsLicensed :
    {Box : Type 0} (est : Estimates) (median_of : List ℕ → ℕ) (mode : Mode) (q : String) (k : ℕ)
    (found : Found) (box : Box)
    → let reply = shop_search est median_of mode q k found box in
      (length reply.results ≤ k)
      × All (IsLicensed mode) reply.results
      × ((a : Attribution)
          → contains reply.attribution a
            ≡ any (λ s. asks a (required s)) (map (λ x. x.offer.source) reply.results))
      × IsOnce reply.attribution
unfolding shop_search attribution_for contains
shop_search-IsLicensed est median_of mode q k found box =
    let rated = map (λ r. r.price) (keep (λ r. may_verdict r.source) found.results) in
    let scored = score_offers est mode found.results (median_or_zero median_of rated) in
    let results = take k scored in
    (
      omega (arith, length-take k scored),
      All-take (IsLicensed mode) k scored
          (score_offers-IsLicensed est mode found.results (median_or_zero median_of rated)).0,
      (λ a. contains-attribute (map (λ x. x.offer.source) results) [] a),
      IsOnce-attribute (map (λ x. x.offer.source) results) [] tt,
    )
