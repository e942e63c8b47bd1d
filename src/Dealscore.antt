-- ===== src/Dealscore.antt =====
-- dealfinder/dealscore.py: the two-signal verdict. Prices are whole cents and a signal is an exact
-- fraction, so the rounding of floats is left out. The text of a reason is not modelled, nor the
-- model that predicts a fair price.
pub mod Thresholds
mod Tests
use tutorial_dealfinder.Base.{
  ℕ, ◌+◌, ◌*◌, Bool, true, false, ◌&&◌, leb, ltb, nat_beq, if◌then◌else◌,
}

-- (above - below) / den
pub record Fraction : Type 0 where
  pub above : ℕ
  pub below : ℕ
  pub den : ℕ

abbrev pub nil : Fraction
nil = record { above = 0; below = 0; den = 1 }

-- `f >= p / 100`
abbrev pub at_least : ℕ → Fraction → Bool
at_least p f = leb (p * f.den + 100 * f.below) (100 * f.above)

-- `f <= - p / 100`
abbrev pub at_most_minus : ℕ → Fraction → Bool
at_most_minus p f = leb (100 * f.above + p * f.den) (100 * f.below)

-- `f < 0`
abbrev pub is_negative : Fraction → Bool
is_negative f = ltb f.above f.below

-- `SUSPICIOUS_RESIDUAL_FRAC`, `DEAL_MEDIAN_FRAC`, in hundredths
abbrev pub suspicious_residual : ℕ
suspicious_residual = 70

abbrev pub deal_median : ℕ
deal_median = 15

-- `median_signal`
unfoldable pub median_signal : ℕ → ℕ → Fraction
median_signal actual median =
    if nat_beq median 0 then nil else record { above = median; below = actual; den = median }

-- `residual_fraction`
unfoldable pub residual_fraction : ℕ → ℕ → Fraction
residual_fraction actual fair =
    if nat_beq fair 0 then nil else record { above = fair; below = actual; den = fair }

pub data Label : Type 0 where
  deal suspicious fair overpriced : Label

pub record Verdict : Type 0 where
  pub label : Label
  pub median_part : Fraction
  pub fair_price : ℕ
  pub residual_part : Fraction

-- the label that `verdict` chooses
unfoldable pub label_of : Fraction → Fraction → Label
label_of m rf =
    if at_least deal_median m && at_least suspicious_residual rf
    then suspicious
    else if at_least deal_median m
    then deal
    else if is_negative m
    then overpriced
    else fair

-- `verdict`
unfoldable pub verdict : ℕ → ℕ → ℕ → Verdict
verdict actual median fair_price =
    let m = median_signal actual median in
    let rf = residual_fraction actual fair_price in
    record { label = label_of m rf; median_part = m; fair_price = fair_price; residual_part = rf }

-- `render_badge`, as the label whose upper-case text it gives
unfoldable pub render_badge : Fraction → Fraction → Label
render_badge deal_pct residual_frac =
    if at_least deal_median deal_pct && at_least suspicious_residual residual_frac
    then suspicious
    else if at_least deal_median deal_pct
    then deal
    else if is_negative deal_pct
    then overpriced
    else fair
