-- ===== src/Shop/Scoring.antt =====
-- The scorer of dealfinder/shop.py. Prices are whole cents and signals exact fractions. The trained
-- price models, the peer estimate over embeddings, the category guess, the slug and the rounding of a
-- percentage are parameters; a reason is a constructor with what its text is made of.
pub mod Licensed
use tutorial_dealfinder.Base.{
  ℕ, suc, ◌+◌, ◌*◌, String, Bool, true, false, ◌&&◌, Option, none, some, List, [], ◌∷◌, map, leb,
  ltb, nat_beq, if◌then◌else◌, keep, sort, string_eq, ◌==◌,
}
use tutorial_dealfinder.Licensing.{may_verdict, may_embed, may_comingle}
use tutorial_dealfinder.Dealscore.{
  Fraction, nil, Label, deal, suspicious, fair, overpriced, median_signal, residual_fraction,
  render_badge,
}

-- A row of the live search.
pub record Offer : Type 0 where
  pub id : String
  pub sku : Option String
  pub title : String
  pub brand : Option String
  pub price : ℕ
  pub regular_price : Option ℕ
  pub source : Option String
  pub url : Option String
  pub image_url : Option String
  pub fetched_at : Option String

pub data Mode : Type 0 where
  live check : Mode

-- `verdict_mode`, of the environment's DEALFINDER_VERDICT_MODE; the warning it logs is left out
unfoldable pub verdict_mode : Option String → Mode
verdict_mode none = live
verdict_mode (some raw) = if raw == "live" then live else check

pub data Basis : Type 0 where
  model peers : Basis

pub data Reason : Type 0 where
  not_rated check_mode no_estimate : Reason
  explained : Label → Fraction → ℕ → Basis → Reason

pub record Row : Type 0 where
  pub offer : Offer
  pub slug : Option String
  pub category : Option String
  pub reason : Reason
  pub verdict : Option Label
  -- in percent
  pub pct_under_median : Option Fraction
  pub fair_price : Option ℕ
  pub residual_part : Option Fraction
  pub basis : Option Basis

-- What the scorer takes from numeric code.
pub record Estimates : Type 0 where
  pub guess_category : String → Option String
  -- the trained model's fair price, where the category has a model
  pub model_fair : String → Offer → Option ℕ
  -- `peer_fair_prices`, by index
  pub peer_fair_prices : List Offer → ℕ → Option ℕ
  pub offer_slug : String → Option String → Option String
  -- `round(m * 100, 1)`
  pub round_pct : Fraction → Fraction

-- `_value`, of the percentage and the verdict
unfoldable pub value_of : Option Label → Fraction → Fraction
value_of (some suspicious) s = record s { below = s.below + s.den }
value_of (some overpriced) s = record {
  above = 2 * s.above;
  below = 2 * s.below + s.den;
  den = 2 * s.den;
}
value_of _ s = s

unfoldable pub value : Row → Fraction
value x = elim x.pct_under_median [
  | none ↦ value_of x.verdict nil
  | some p ↦ value_of x.verdict (record p { den = 100 * p.den })
]

-- `a <= b`
unfoldable pub fraction_le : Fraction → Fraction → Bool
fraction_le a b = leb (a.above * b.den + b.below * a.den) (b.above * a.den + a.below * b.den)

module _ (est : Estimates) where
  -- `_unrated`
  unfoldable pub unrated : Offer → Reason → Row
  unrated r reason = record {
    offer = r;
    slug = est.offer_slug r.title r.sku;
    category = est.guess_category r.title;
    reason = reason;
    verdict = none;
    pct_under_median = none;
    fair_price = none;
    residual_part = none;
    basis = none;
  }

  -- `models.get(cat) if cat else None`, and its price
  unfoldable pub model_for : Offer → Option ℕ
  model_for r = elim (est.guess_category r.title) [
    | none ↦ none
    | some cat ↦ if cat == "" then none else est.model_fair cat r
  ]

  -- the fair price and its basis: the category's model, else the peers if they say more than zero
  unfoldable pub fair_for : Offer → Option ℕ → Option (ℕ × Basis)
  fair_for r peer = elim (model_for r) [
    | some f ↦ some (f, model)
    | none ↦ elim peer [ none ↦ none | some f ↦ if ltb 0 f then some (f, peers) else none ]
  ]

  -- the row of an offer that may be rated
  unfoldable pub rated_row : ℕ → Option (ℕ × Basis) → Offer → Row
  rated_row median none r = record (unrated r no_estimate) {
    pct_under_median = some (est.round_pct (median_signal r.price median));
  }
  rated_row median (some (f, basis)) r =
      let m = median_signal r.price median in
      let rf = residual_fraction r.price f in
      let label = render_badge m rf in
      record (unrated r (explained label m f basis)) {
        verdict = some label;
        pct_under_median = some (est.round_pct m);
        fair_price = some f;
        residual_part = some rf;
        basis = some basis;
      }

  -- one round of the loop of `score_offers`
  unfoldable pub score_row : ℕ → Option ℕ → Offer → Row
  score_row median peer r =
      if may_verdict r.source then rated_row median (fair_for r peer) r else unrated r not_rated

  -- the rows that feed the peer estimate
  abbrev pub is_peer : Offer → Bool
  is_peer r = may_verdict r.source && may_embed r.source

  -- the loop of `score_offers`; `j` counts the peers so far, whose estimates are `estimates`
  unfoldable pub score_rows : ℕ → (ℕ → Option ℕ) → ℕ → List Offer → List Row
  score_rows median estimates j [] = []
  score_rows median estimates j (r ∷ rows) =
      score_row median (if is_peer r then estimates j else none) r
      ∷ score_rows median estimates (if is_peer r then suc j else j) rows

  -- `score_offers`
  unfoldable pub score_offers : Mode → List Offer → ℕ → List Row
  score_offers check offers median =
      map (λ r. unrated r check_mode) (keep (λ r. may_comingle r.source) offers)
  score_offers live offers median =
      let rows = keep (λ r. may_comingle r.source) offers in
      sort (λ x y. fraction_le (value y) (value x))
        (score_rows median (est.peer_fair_prices (keep is_peer rows)) 0 rows)
