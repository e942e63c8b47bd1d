-- ===== src/Shop/Search.antt =====
-- The attribution, the shopper search and the check of one price of dealfinder/shop.py. The search of
-- the stores, the eBay box and `statistics.median` are parameters.
pub mod Reply
pub mod Single
use tutorial_dealfinder.Base.{
  ℕ, String, Bool, true, false, not, ◌||◌, Option, none, some, List, [], ◌∷◌, ◌++◌, map,
  if◌then◌else◌, keep, take, append_once, Dict, string_eq, pair_eq, list_eq, length,
}
use tutorial_dealfinder.Licensing.{policy_for, may_verdict}
use tutorial_dealfinder.Dealscore.{
  Fraction, Label, deal, suspicious, fair, overpriced, suspicious_residual, deal_median, at_least,
  at_most_minus, residual_fraction,
}
use tutorial_dealfinder.Shop.Scoring.{Offer, Mode, live, check, Estimates, Row, score_offers}

abbrev pub Attribution : Type 0
Attribution = Dict String String

-- what the terms of a source require, where they are known
unfoldable pub required : Option String → Option Attribution
required source = elim (policy_for source) [ none ↦ none | some p ↦ p.attribution ]

-- `if policy and policy.attribution and policy.attribution not in out: out.append(...)`
unfoldable pub mention : List Attribution → Option Attribution → List Attribution
mention out none = out
mention out (some a) = append_once out a

-- the loop of `attribution_for`, from the list so far
unfoldable pub attribute : List Attribution → List (Option String) → List Attribution
attribute out [] = out
attribute out (source ∷ sources) = attribute (mention out (required source)) sources

-- `attribution_for`, of the rows' sources
unfoldable pub attribution_for : List Row → List Attribution
attribution_for rows = attribute [] (map (λ x. x.offer.source) rows)

-- What `aggregate` returns.
pub record Found : Type 0 where
  pub results : List Offer
  pub timed_out : List String
  pub throttled : List String
  pub benched : List String

pub record SearchReply (Box : Type 0) : Type 0 where
  pub query : String
  pub mode : Mode
  pub count : ℕ
  pub median_price : Option ℕ
  pub results : List Row
  pub ebay : Box
  pub attribution : List Attribution
  pub degraded : Bool

-- `bool(names)`
abbrev pub any_names : List String → Bool
any_names [] = false
any_names (_ ∷ _) = true

-- `statistics.median(rated) if rated else 0.0`
unfoldable pub median_or_zero : (List ℕ → ℕ) → List ℕ → ℕ
median_or_zero median [] = 0
median_or_zero median (p ∷ prices) = median (p ∷ prices)

-- `shop_search`, once the stores and the eBay box have answered
unfoldable pub shop_search :
    {Box : Type 0} → Estimates → (List ℕ → ℕ) → Mode → String → ℕ → Found → Box → SearchReply Box
shop_search est median_of mode q k found box =
    let rated = map (λ r. r.price) (keep (λ r. may_verdict r.source) found.results) in
    let median = median_or_zero median_of rated in
    let results = take k (score_offers est mode found.results median) in
    record {
      query = q;
      mode = mode;
      count = length results;
      median_price = elim mode [ live ↦ some median | check ↦ none ];
      results = results;
      ebay = box;
      attribution = attribution_for results;
      degraded = any_names found.timed_out || any_names found.throttled || any_names found.benched;
    }

-- the reply of `check_deal`, without its texts
pub record Check : Type 0 where
  pub title : String
  pub price : ℕ
  pub category : Option String
  pub fair_price : Option ℕ
  pub residual_part : Option Fraction
  pub label : Option Label

-- the verdict of `check_deal`
unfoldable pub residual_label : Fraction → Label
residual_label rf =
    if at_least suspicious_residual rf
    then suspicious
    else if at_least deal_median rf
    then deal
    else if at_most_minus deal_median rf
    then overpriced
    else fair

-- `check_deal`; `fair_for` is `_fair_for`, the category and the model's fair price
unfoldable pub check_deal : (String → Option String × Option ℕ) → String → ℕ → Check
check_deal fair_for title price =
    let (cat, estimate) = fair_for title in
    elim estimate [
      | none ↦ record {
        title = title;
        price = price;
        category = cat;
        fair_price = none;
        residual_part = none;
        label = none;
      }
      | some f ↦
          let rf = residual_fraction price f in
          record {
            title = title;
            price = price;
            category = cat;
            fair_price = some f;
            residual_part = some rf;
            label = some (residual_label rf);
          }
    ]
