-- ===== src/Shop/Scoring/Licensed.antt =====
-- The rows of `score_offers` of dealfinder/shop.py under the stores' terms.
use tutorial_dealfinder.Base.{
  All-kept, length-keep, ◌∙◌, ℕ, suc, ◌≡◌, ◌⊎◌, true, false, Option, none, some, List, [], ◌∷◌, map,
  if◌then◌else◌, keep, length, length-sort, All, All-sort, Bool-cases, inl, inr, refl, arith, count,
}
use tutorial_dealfinder.Licensing.{may_verdict, may_comingle}
use tutorial_dealfinder.Shop.Scoring.{
  Offer, Mode, live, check, Estimates, Row, Basis, check_mode, value, fraction_le, unrated,
  rated_row, score_row, score_rows, is_peer, score_offers, fair_for,
}

-- a row that shows no price signal
pub record IsUnrated (x : Row) : Type 0 where
  pub no_verdict : x.verdict ≡ none
  pub no_percentage : x.pct_under_median ≡ none
  pub no_fair_price : x.fair_price ≡ none
  pub no_residual : x.residual_part ≡ none
  pub no_basis : x.basis ≡ none

-- a row that the terms of its store allow in a mode
abbrev pub IsLicensed : Mode → Row → Type 0
IsLicensed mode x =
    (may_comingle x.offer.source ≡ true)
    × ((mode ≡ check) ⊎ (may_verdict x.offer.source ≡ false) → IsUnrated x)

module _ (est : Estimates) where
  rated_row-offer :
      (median : ℕ) (f : Option (ℕ × Basis)) (r : Offer) → (rated_row est median f r).offer ≡ r
  unfolding rated_row unrated
  rated_row-offer median none r = refl
  rated_row-offer median (some (f, basis)) r = refl

  score_row-IsLicensed :
      (median : ℕ) (peer : Option ℕ) (r : Offer)
      → may_comingle r.source ≡ true
      → IsLicensed live (score_row est median peer r)
  unfolding score_row unrated
  score_row-IsLicensed median peer r h = elim (Bool-cases (may_verdict r.source)) [
    | inl e ↦
        let same = rated_row-offer median (fair_for est r peer) r in
        rw e (rw same h, λ o. absurd (ground (arith, o, same, e)))
    | inr e ↦ rw e (
      h,
      λ _. record {
        no_verdict = refl;
        no_percentage = refl;
        no_fair_price = refl;
        no_residual = refl;
        no_basis = refl;
      },
    )
  ]

  score_rows-IsLicensed :
      (median : ℕ) (estimates : ℕ → Option ℕ) (j : ℕ) (rows : List Offer)
      → All (λ r. may_comingle r.source ≡ true) rows
      → All (IsLicensed live) (score_rows est median estimates j rows)
        × (length (score_rows est median estimates j rows) ≡ length rows)
  unfolding score_rows
  score_rows-IsLicensed median estimates j [] h = (tt, refl)
  score_rows-IsLicensed median estimates j (r ∷ rows) h =
      let (all, total) =
        score_rows-IsLicensed median estimates (if is_peer est r then suc j else j) rows h.1 in
      (
        (score_row-IsLicensed median (if is_peer est r then estimates j else none) r h.0, all),
        omega (arith, total),
      )

  unrated-IsLicensed :
      (rows : List Offer)
      → All (λ r. may_comingle r.source ≡ true) rows
      → All (IsLicensed check) (map (λ r. unrated est r check_mode) rows)
        × (length (map (λ r. unrated est r check_mode) rows) ≡ length rows)
  unfolding unrated
  unrated-IsLicensed [] h = (tt, refl)
  unrated-IsLicensed (r ∷ rows) h =
      let (all, total) = unrated-IsLicensed rows h.1 in
      (
        (
          (
            h.0,
            λ _. record {
              no_verdict = refl;
              no_percentage = refl;
              no_fair_price = refl;
              no_residual = refl;
              no_basis = refl;
            },
          ),
          all,
        ),
        omega (arith, total),
      )

  -- Every row that `score_offers` returns comes from a store that may be shown beside others, and
  -- carries no price signal in check mode or where its store's terms forbid ratings; and there is
  -- one row for every offer of such a store.
  pub score_offers-IsLicensed :
      (mode : Mode) (offers : List Offer) (median : ℕ)
      → All (IsLicensed mode) (score_offers est mode offers median)
        × (length (score_offers est mode offers median) ≡ count (λ r. may_comingle r.source) offers)
  unfolding score_offers
  score_offers-IsLicensed check offers median =
      let rows = keep (λ r. may_comingle r.source) offers in
      let (all, total) = unrated-IsLicensed rows (All-kept (λ r. may_comingle r.source) offers) in
      (all, total ∙ length-keep (λ r. may_comingle r.source) offers)
  score_offers-IsLicensed live offers median =
      let rows = keep (λ r. may_comingle r.source) offers in
      let le = λ (x y : Row). fraction_le (value y) (value x) in
      let scored = score_rows est median (est.peer_fair_prices (keep (is_peer est) rows)) 0 rows in
      let (all, total) =
        score_rows-IsLicensed median (est.peer_fair_prices (keep (is_peer est) rows)) 0 rows
          (All-kept (λ r. may_comingle r.source) offers) in
      (
        All-sort (IsLicensed live) le scored all,
        length-sort le scored ∙ total ∙ length-keep (λ r. may_comingle r.source) offers,
      )
