-- ===== src/Mlops/Tests.antt =====
-- Runs of dealfinder/mlops.py, dealfinder/evals.py and dealfinder/ops.py, and their theorems at concrete
-- inputs.
use tutorial_dealfinder.Base.{
  ℕ, ◌*◌, ◌≤◌, ◌<◌, ◌≡◌, ◌↔◌, String, true, Option, none, some, List, [], ◌∷◌, Dict, lookup, insert,
  string_eq, refl, count, sort, insert_sorted,
}
use tutorial_dealfinder.Dealscore.{
  Label, deal, suspicious, overpriced, median_signal, residual_fraction,
}
use tutorial_dealfinder.Mlops.Evals.{
  Golden, Ranker, Precision, median_only_ranker, two_signal_ranker, score, fraction_ge,
  precision_at_k, evaluate, ab_compare, precision_lt,
}
use tutorial_dealfinder.Mlops.Costs.{
  Call, record_call, total, by_model, add_costs, sum_values, budget_status, warn,
}
use tutorial_dealfinder.Mlops.{
  DriftReport, RetrainReport, CycleDecision, run_mlops_cycle, eval_gate, champion_precision,
  reason_of,
}
use tutorial_dealfinder.Mlops.Promotion.{scores, run_mlops_cycle_lem}

program : Unit {0}
unfolding median_only_ranker two_signal_ranker score fraction_ge precision_at_k evaluate
    precision_lt record_call total by_model add_costs sum_values budget_status run_mlops_cycle
    eval_gate champion_precision reason_of lookup insert count sort insert_sorted median_signal
    residual_fraction ab_compare
program = tt

abbrev row : String → ℕ → Label → Golden
row id price label = record {
  id = id;
  title = id;
  category = "audio";
  price = price;
  median = 16297;
  label = label;
}

abbrev golden : List Golden
golden =
    row "qc45" 4600 suspicious
    ∷ row "q20i" 4499 deal
    ∷ row "xm5" 24800 overpriced
    ∷ row "ch720n" 9800 deal
    ∷ []

abbrev priced : Golden → Option (ℕ × ℕ)
priced g = some (g.price, 28515)

-- the model's fair price is known of the trap alone
abbrev priced_trap : Golden → Option (ℕ × ℕ)
priced_trap g = elim g.label [ suspicious ↦ some (g.price, 28515) | _ ↦ none ]

abbrev of_two : List Golden → Precision
of_two ranked = precision_at_k ranked 2

traps_first :
    of_two (median_only_ranker (row "qc45" 4400 suspicious ∷ golden)) ≡ record { deals = 1; of = 2 }
unfolding program
traps_first = refl

demoted : of_two (two_signal_ranker priced_trap golden) ≡ record { deals = 2; of = 2 }
unfolding program
demoted = refl

abbrev rankers : Dict String Ranker
rankers = ("two_signal", two_signal_ranker priced_trap) ∷ ("median_only", median_only_ranker) ∷ []

abbrev drift_of : ℕ → DriftReport
drift_of frac = record { psi = 318; threshold = 200; drifted = true; frac = frac }

abbrev trained : RetrainReport
trained = record {
  linear_mae = 22789;
  gbdt_mae = 13811;
  improvement_pct = 394;
  n_train = 80;
  n_test = 20;
}

run_mlops_cycle_lem_example :
    (d : CycleDecision) × (run_mlops_cycle rankers golden drift_of trained 30 "two_signal"
        (some "median_only")
      ≡ some d)
    × ((d.promote ≡ true) ↔ (
        ((drift_of 30).drifted ≡ true)
        × (80 * (scores golden (two_signal_ranker priced_trap)).of
            ≤ 100 * (scores golden (two_signal_ranker priced_trap)).deals)
        × ((scores golden median_only_ranker).deals
              * (scores golden (two_signal_ranker priced_trap)).of
            < (scores golden (two_signal_ranker priced_trap)).deals
              * (scores golden median_only_ranker).of)))
    × (d.retrained ≡ (drift_of 30).drifted)
unfolding program
run_mlops_cycle_lem_example =
    run_mlops_cycle_lem rankers golden drift_of trained 30 "two_signal" "median_only"
      (two_signal_ranker priced_trap) median_only_ranker refl refl

abbrev call : Call
call = record { model = "gpt-4o"; cost = 3500; in_tok = 10; out_tok = 1 }

near_budget : budget_status 90 100 ≡ warn
unfolding program
near_budget = refl
