-- ===== src/Mlops/Promotion.antt =====
-- When a cycle of dealfinder/mlops.py promotes.
use tutorial_dealfinder.Base.{
  ℕ, ◌*◌, ◌≤◌, ◌<◌, ◌≡◌, ◌↔◌, String, Bool, true, false, not, Option, some, List, if◌then◌else◌,
  Dict, lookup, string_eq, arith, Bool-cases, inl, inr, refl, ◌∙◌, sym, leb,
}
use tutorial_dealfinder.Mlops.Evals.{
  gate_precision, Golden, Ranker, Precision, precision_lt, evaluate, precision_at_k, gate_k,
}
use tutorial_dealfinder.Mlops.{
  DriftReport, RetrainReport, GateReport, CycleDecision, eval_gate, champion_precision, held,
  decided, hold_champion, after_gate, run_mlops_cycle,
}

-- the precision@5 of a ranker
abbrev pub scores : List Golden → Ranker → Precision
scores golden ranker = precision_at_k (ranker golden) gate_k

unnegated_true : {A : Type 0} (b : Bool) (x y : A) → b ≡ true → (if not b then x else y) ≡ y
unnegated_true b x y e = ground (arith, e)

unnegated_false : {A : Type 0} (b : Bool) (x y : A) → b ≡ false → (if not b then x else y) ≡ x
unnegated_false b x y e = ground (arith, e)

module _ (rankers : Dict String Ranker) (golden : List Golden) (check_drift : ℕ → DriftReport)
    (retrained : RetrainReport) where
  -- A cycle between two known rankers always decides. It promotes exactly where the mix has drifted,
  -- at least 80% of the challenger's first five are deals, and that is a greater part than of the
  -- champion's; it retrains exactly where the mix has drifted.
  pub run_mlops_cycle_lem :
      (frac : ℕ) (challenger champion : String) (ranker incumbent : Ranker)
      → lookup rankers challenger ≡ some ranker
      → lookup rankers champion ≡ some incumbent
      → (d : CycleDecision) × (run_mlops_cycle rankers golden check_drift retrained frac challenger
            (some champion)
          ≡ some d)
        × ((d.promote ≡ true) ↔ (
            ((check_drift frac).drifted ≡ true)
            × (80 * (scores golden ranker).of ≤ 100 * (scores golden ranker).deals)
            × ((scores golden incumbent).deals * (scores golden ranker).of
                < (scores golden ranker).deals * (scores golden incumbent).of)))
        × (d.retrained ≡ (check_drift frac).drifted)
  unfolding run_mlops_cycle eval_gate champion_precision evaluate precision_lt
  run_mlops_cycle_lem frac challenger champion ranker incumbent h k =
      let gate : GateReport = record {
        challenger = challenger;
        precision_at_5 = scores golden ranker;
        gate = gate_precision;
        passes_gate = leb (80 * (scores golden ranker).of) (100 * (scores golden ranker).deals);
      } in
      let drift = check_drift frac in
      let p : champion_precision rankers golden check_drift retrained (some champion)
          ≡ some (scores golden incumbent) =
        rw (k, champion_precision) refl in
      let g : eval_gate rankers golden check_drift retrained challenger ≡ some gate =
        rw (h, eval_gate) refl in
      let hold : Option Precision → Option CycleDecision = λ o.
        hold_champion rankers golden check_drift retrained drift challenger (some champion) o in
      let go : Option GateReport → Option Precision → Option CycleDecision = λ a b.
        after_gate rankers golden check_drift retrained drift challenger (some champion) a b in
      elim (Bool-cases (check_drift frac).drifted) [
        | inl e ↦ (
          decided rankers golden check_drift retrained (check_drift frac) challenger (some champion)
              gate (scores golden incumbent),
          unnegated_true drift.drifted
                (hold (champion_precision rankers golden check_drift retrained (some champion)))
                (go (eval_gate rankers golden check_drift retrained challenger)
                  (champion_precision rankers golden check_drift retrained (some champion)))
                e
              ∙ (λ i. go (g i) (p i)),
          (λ p. (e, ground (arith, p), ground (arith, p)), λ p. ground (arith, p.1, p.2)),
          sym e,
        )
        | inr e ↦ (
          held rankers golden check_drift retrained (check_drift frac) challenger (some champion)
              (scores golden incumbent),
          unnegated_false drift.drifted
                (hold (champion_precision rankers golden check_drift retrained (some champion)))
                (go (eval_gate rankers golden check_drift retrained challenger)
                  (champion_precision rankers golden check_drift retrained (some champion)))
                e
              ∙ (λ i. hold (p i)),
          (λ p. absurd (cc), λ p. absurd (ground (arith, e, p.0))),
          sym e,
        )
      ]
