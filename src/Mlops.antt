-- ===== src/Mlops.antt =====
-- dealfinder/mlops.py over dealfinder/evals.py: drift, retraining, the gate on precision@5, and the
-- promotion of a challenger. The drift statistic and the training are parameters. A text of the trace
-- is a constructor with what it is made of; precision is an exact fraction.
pub mod Evals
pub mod Promotion
pub mod Costs
mod Tests
use tutorial_dealfinder.Base.{
  ℕ, String, Bool, true, false, not, ◌&&◌, Option, none, some, List, [], ◌∷◌, ◌++◌, if◌then◌else◌,
  Dict, lookup, string_eq, get_or,
}
use tutorial_dealfinder.Mlops.Evals.{
  gate_precision, Golden, Evaluation, Ranker, Precision, precision_lt, evaluate, no_precision,
}

pub record DriftReport : Type 0 where
  pub psi : ℕ
  pub threshold : ℕ
  pub drifted : Bool
  pub frac : ℕ

pub data Action : Type 0 where
  retrain hold : Action

-- `DriftReport.action`
unfoldable pub action : DriftReport → Action
action drift = if drift.drifted then retrain else hold

pub record RetrainReport : Type 0 where
  pub linear_mae : ℕ
  pub gbdt_mae : ℕ
  pub improvement_pct : ℕ
  pub n_train : ℕ
  pub n_test : ℕ

pub record GateReport : Type 0 where
  pub challenger : String
  pub precision_at_5 : Precision
  pub gate : ℕ
  pub passes_gate : Bool

-- What a line of the trace or a reason tells.
pub data Note : Type 0 where
  drift_checked : DriftReport → Note
  no_retrain nothing_to_promote : Note
  retrained_note : RetrainReport → Note
  gate_checked : GateReport → Note
  promoted failed_gate not_better : GateReport → Precision → Note

pub record CycleDecision : Type 0 where
  pub drift : DriftReport
  pub retrained : Bool
  pub retrain_report : Option RetrainReport
  pub gate : Option GateReport
  pub champion : String
  pub champion_precision : Precision
  pub challenger : String
  pub promote : Bool
  pub reason : Note
  pub trace : List Note

module _ (rankers : Dict String Ranker) (golden : List Golden) (check_drift : ℕ → DriftReport)
    (retrained : RetrainReport) where
  -- `eval_gate`; none is a KeyError
  unfoldable pub eval_gate : String → Option GateReport
  eval_gate challenger = elim (lookup rankers challenger) [
    | none ↦ none
    | some ranker ↦
        let res = evaluate ranker golden in
        some (record {
          challenger = challenger;
          precision_at_5 = res.precision_at_5;
          gate = gate_precision;
          passes_gate = res.passes_gate;
        })
  ]

  -- `_champion_precision`
  unfoldable pub champion_precision : Option String → Option Precision
  champion_precision none = some no_precision
  champion_precision (some champion) = elim (lookup rankers champion) [
    | none ↦ none
    | some ranker ↦ some (evaluate ranker golden).precision_at_5
  ]

  -- the decision without drift
  abbrev pub held : DriftReport → String → Option String → Precision → CycleDecision
  held drift challenger champion champ_p = record {
    drift = drift;
    retrained = false;
    retrain_report = none;
    gate = none;
    champion = get_or champion "(none)";
    champion_precision = champ_p;
    challenger = challenger;
    promote = false;
    reason = nothing_to_promote;
    trace = drift_checked drift ∷ no_retrain ∷ [];
  }

  -- the reason for or against the promotion
  unfoldable pub reason_of : GateReport → Precision → Note
  reason_of gate champ_p =
      if gate.passes_gate && precision_lt champ_p gate.precision_at_5
      then promoted gate champ_p
      else if not gate.passes_gate
      then failed_gate gate champ_p
      else not_better gate champ_p

  -- the decision after the gate
  abbrev pub decided : DriftReport → String → Option String → GateReport → Precision → CycleDecision
  decided drift challenger champion gate champ_p = record {
    drift = drift;
    retrained = true;
    retrain_report = some retrained;
    gate = some gate;
    champion = get_or champion "(none)";
    champion_precision = champ_p;
    challenger = challenger;
    promote = gate.passes_gate && precision_lt champ_p gate.precision_at_5;
    reason = reason_of gate champ_p;
    trace =
        drift_checked drift
        ∷ retrained_note retrained
        ∷ gate_checked gate
        ∷ reason_of gate champ_p
        ∷ [];
  }

  -- the end of a cycle without drift
  abbrev pub hold_champion :
      DriftReport → String → Option String → Option Precision → Option CycleDecision
  hold_champion drift challenger champion none = none
  hold_champion drift challenger champion (some champ_p) =
      some (held drift challenger champion champ_p)

  -- the end of a cycle with drift
  abbrev pub after_gate :
      DriftReport
      → String
      → Option String
      → Option GateReport
      → Option Precision
      → Option CycleDecision
  after_gate drift challenger champion none p = none
  after_gate drift challenger champion (some gate) none = none
  after_gate drift challenger champion (some gate) (some champ_p) =
      some (decided drift challenger champion gate champ_p)

  -- `run_mlops_cycle`; none is a KeyError
  unfoldable pub run_mlops_cycle : ℕ → String → Option String → Option CycleDecision
  run_mlops_cycle frac challenger champion =
      let drift = check_drift frac in
      if not drift.drifted
      then hold_champion drift challenger champion (champion_precision champion)
      else after_gate drift challenger champion (eval_gate challenger) (champion_precision champion)
