-- ===== src/Shop/Search/Single.antt =====
-- `check_deal` of dealfinder/shop.py, in prices.
use tutorial_dealfinder.Base.{ℕ, ◌*◌, ◌≤◌, ◌<◌, ◌≡◌, ◌↔◌, String, Option, none, some, arith}
use tutorial_dealfinder.Dealscore.{deal, suspicious, fair, overpriced, residual_fraction}
use tutorial_dealfinder.Shop.Search.{residual_label, check_deal}

-- What `check_deal` answers where a positive fair price is known: suspicious exactly at a price of at
-- most 30% of it, a deal exactly above that and at most at 85%, overpriced exactly from 115% on, and
-- fair exactly between 85% and 115%.
pub check_deal_lem :
    (fair_for : String → Option String × Option ℕ) (title : String) (price fair_price : ℕ)
    → (fair_for title).1 ≡ some fair_price
    → 0 < fair_price
    → let c = check_deal fair_for title price in
      ((c.label ≡ some suspicious) ↔ (10 * price ≤ 3 * fair_price))
      × ((c.label ≡ some deal) ↔ ((3 * fair_price < 10 * price) × (100 * price ≤ 85 * fair_price)))
      × ((c.label ≡ some overpriced) ↔ (115 * fair_price ≤ 100 * price))
      × ((c.label ≡ some fair)
          ↔ ((85 * fair_price < 100 * price) × (100 * price < 115 * fair_price)))
unfolding check_deal residual_label residual_fraction
check_deal_lem fair_for title price fair_price h pos =
    rw (h, check_deal)
      (
        (λ k. ground (arith, k), λ k. ground arith),
        (λ k. ground arith, λ k. ground arith),
        (λ k. ground arith, λ k. ground arith),
        (λ k. ground arith, λ k. ground arith),
      )

-- where no fair price is known, nothing is rated
check_deal_unknown :
    (fair_for : String → Option String × Option ℕ) (title : String) (price : ℕ)
    → (fair_for title).1 ≡ none
    → (check_deal fair_for title price).label ≡ none
unfolding check_deal
check_deal_unknown fair_for title price h = ground (arith, h)
