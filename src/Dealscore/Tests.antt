-- ===== src/Dealscore/Tests.antt =====
-- Runs of dealfinder/dealscore.py, and the theorem at a concrete input.
use tutorial_dealfinder.Base.{◌*◌, ◌≤◌, ◌<◌, ◌≡◌, ◌↔◌, refl, arith}
use tutorial_dealfinder.Dealscore.{
  deal, suspicious, fair, overpriced, median_signal, residual_fraction, label_of, verdict,
  render_badge,
}
use tutorial_dealfinder.Dealscore.Thresholds.{verdict_lem}

program : Unit {0}
unfolding median_signal residual_fraction label_of verdict render_badge
program = tt

-- a $46 headphone under a $162.97 median and a $285.15 fair price
trap : (verdict 4600 16297 28515).label ≡ suspicious
unfolding program
trap = refl

value_pick : (verdict 4499 16297 10833).label ≡ deal
unfolding program
value_pick = refl

no_median : (verdict 4499 0 10833).label ≡ fair
unfolding program
no_median = refl

verdict_lem_example :
    let v = verdict 4600 16297 28515 in
    ((v.label ≡ suspicious) ↔ ((100 * 4600 ≤ 85 * 16297) × (10 * 4600 ≤ 3 * 28515)))
    × ((v.label ≡ deal) ↔ ((100 * 4600 ≤ 85 * 16297) × (3 * 28515 < 10 * 4600)))
    × ((v.label ≡ overpriced) ↔ (16297 < 4600))
    × ((v.label ≡ fair) ↔ ((85 * 16297 < 100 * 4600) × (4600 ≤ 16297)))
    × (render_badge v.median_part v.residual_part ≡ v.label)
verdict_lem_example = verdict_lem 4600 16297 28515 (omega arith) (omega arith)
