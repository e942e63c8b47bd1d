-- ===== src/Mlops/Evals.antt =====
-- dealfinder/evals.py: the rankers, precision@5 and its gate. The golden rows and the fair price of the
-- category's model are parameters; prices are whole cents and scores exact fractions.
use tutorial_dealfinder.Base.{
  ◌-◌, ℕ, ◌+◌, ◌*◌, String, Bool, true, false, ◌&&◌, Option, none, some, List, map, if◌then◌else◌,
  leb, ltb, count, take, length, sort, max, string_eq,
}
use tutorial_dealfinder.Dealscore.{
  Fraction, Label, deal, median_signal, residual_fraction, at_least,
}

-- `GATE_K`, `GATE_PRECISION` in hundredths
abbrev pub gate_k : ℕ
gate_k = 5

abbrev pub gate_precision : ℕ
gate_precision = 80

pub record Golden : Type 0 where
  pub id : String
  pub title : String
  pub category : String
  pub price : ℕ
  pub median : ℕ
  pub label : Label

abbrev pub Ranker : Type 0
Ranker = List Golden → List Golden

-- deals / of
pub record Precision : Type 0 where
  pub deals : ℕ
  pub of : ℕ

abbrev pub no_precision : Precision
no_precision = record { deals = 0; of = 1 }

-- `p < q`
unfoldable pub precision_lt : Precision → Precision → Bool
precision_lt p q = ltb (p.deals * q.of) (q.deals * p.of)

pub record Evaluation : Type 0 where
  pub n : ℕ
  pub precision_at_5 : Precision
  pub passes_gate : Bool
  pub top5 : List (String × Label)

-- `a >= b` on signals
unfoldable pub fraction_ge : Fraction → Fraction → Bool
fraction_ge a b = leb (b.above * a.den + a.below * b.den) (a.above * b.den + b.below * a.den)

-- `median_only_ranker`
unfoldable pub median_only_ranker : Ranker
median_only_ranker golden =
    sort (λ g h. fraction_ge (median_signal g.price g.median) (median_signal h.price h.median))
      golden

-- `f > p / 100`
abbrev pub above_part : ℕ → Fraction → Bool
above_part p f = ltb (p * f.den + 100 * f.below) (100 * f.above)

-- `score` of `two_signal_ranker`; `priced` is the product's price and its model's fair price, where both
-- are known
unfoldable pub score : (Golden → Option (ℕ × ℕ)) → Golden → Fraction
score priced g =
    let m = median_signal g.price g.median in
    elim (priced g) [
      | none ↦ m
      | some (price, fair_price) ↦
          let rf = residual_fraction price fair_price in
          if at_least 15 m && above_part 70 rf then record m { below = m.below + m.den } else m
    ]

-- `two_signal_ranker`
unfoldable pub two_signal_ranker : (Golden → Option (ℕ × ℕ)) → Ranker
two_signal_ranker priced golden = sort (λ g h. fraction_ge (score priced g) (score priced h)) golden

-- `g["label"] == "deal"`
abbrev pub is_deal : Golden → Bool
is_deal g = elim g.label [ deal ↦ true | _ ↦ false ]

-- `precision_at_k`
unfoldable pub precision_at_k : List Golden → ℕ → Precision
precision_at_k ranked k =
    let top = take k ranked in record { deals = count is_deal top; of = max 1 (length top) }

-- `evaluate`
unfoldable pub evaluate : Ranker → List Golden → Evaluation
evaluate ranker golden =
    let ranked = ranker golden in
    let p = precision_at_k ranked gate_k in
    record {
      n = length golden;
      precision_at_5 = p;
      passes_gate = leb (gate_precision * p.of) (100 * p.deals);
      top5 = map (λ g. (g.title, g.label)) (take gate_k ranked);
    }

-- `ab_compare`, of scores in thousandths
unfoldable pub ab_compare : String → ℕ → String → ℕ → String × ℕ
ab_compare name_a score_a name_b score_b =
    if leb score_b score_a then (name_a, score_a - score_b) else (name_b, score_b - score_a)
