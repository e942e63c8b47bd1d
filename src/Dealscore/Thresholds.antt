-- ===== src/Dealscore/Thresholds.antt =====
-- The verdict of dealfinder/dealscore.py, in prices.
use tutorial_dealfinder.Base.{ℕ, ◌*◌, ◌≤◌, ◌<◌, ◌≡◌, ◌↔◌, arith, refl}
use tutorial_dealfinder.Dealscore.{
  deal, suspicious, fair, overpriced, median_signal, residual_fraction, label_of, verdict,
  render_badge,
}

-- At a positive median and a positive fair price, the verdict is suspicious exactly where the price
-- is at most 85% of the median and at most 30% of the fair price, a deal exactly where it is at most
-- 85% of the median and above 30% of the fair price, overpriced exactly where it is above the
-- median, and fair exactly between 85% of the median and the median; the badge of the two signals
-- is always the verdict's.
pub verdict_lem :
    (actual median fair_price : ℕ)
    → 0 < median
    → 0 < fair_price
    → let v = verdict actual median fair_price in
      ((v.label ≡ suspicious) ↔ ((100 * actual ≤ 85 * median) × (10 * actual ≤ 3 * fair_price)))
      × ((v.label ≡ deal) ↔ ((100 * actual ≤ 85 * median) × (3 * fair_price < 10 * actual)))
      × ((v.label ≡ overpriced) ↔ (median < actual))
      × ((v.label ≡ fair) ↔ ((85 * median < 100 * actual) × (actual ≤ median)))
      × (render_badge v.median_part v.residual_part ≡ v.label)
unfolding verdict label_of median_signal residual_fraction render_badge
verdict_lem actual median fair_price hm hf = (
  (λ h. ground arith, λ h. ground arith),
  (λ h. ground arith, λ h. ground arith),
  (λ h. ground arith, λ h. ground arith),
  (λ h. ground arith, λ h. ground arith),
  refl,
)
