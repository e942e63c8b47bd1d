-- ===== src/Flows/Gate.antt =====
-- The gate of dealfinder/flows.py: which rows it lets through.
use tutorial_dealfinder.Base.{
  Amount, ◌+◌, ◌<◌, ◌≡◌, ◌↔◌, refl, String, Bool, true, false, Option, List, [], ◌∷◌, count, All,
  Dict, length, if◌then◌else◌, string_eq, nat_eq, Result, ok, raise, arith, All-weaken,
}
use tutorial_dealfinder.Flows.{
  ContractReport, FlowError, key_error, brand_error, data_contract_error, passed, validate_contract,
  quality_gate,
}
use tutorial_dealfinder.Flows.Contract.{
  IsTrusted, is_valid, is_valid-IsTrusted, validate_rows_lem, count-All,
}

module _ {V : Type 0} (as_text : V → Option String) (as_number : V → Option Amount) where
  -- what the gate makes of normalised rows
  abbrev pub IsJudged : List (Dict String V) → Result (FlowError V) (ContractReport V) → Type 0
  IsJudged rows (ok report) =
      (0 < length rows)
      × All (IsTrusted as_text as_number) rows
      × (report.total ≡ length rows)
      × (report.valid ≡ length rows)
      × (report.violations ≡ [])
  IsJudged rows (raise (data_contract_error report)) =
      ¬ ((0 < length rows) × All (IsTrusted as_text as_number) rows)
      × (report.total ≡ length rows)
      × (report.valid + length report.violations ≡ length rows)
  IsJudged rows (raise (key_error c)) = ⊥
  IsJudged rows (raise brand_error) = ⊥

  count-IsTrusted :
      (rows : List (Dict String V))
      → (count (is_valid as_text as_number) rows ≡ length rows)
        ↔ All (IsTrusted as_text as_number) rows
  count-IsTrusted rows =
      let counted = count-All (is_valid as_text as_number) rows in
      (
        λ e.
            All-weaken _ _ rows (λ row. (is_valid-IsTrusted as_text as_number row).0) (counted.0 e),
        λ trusted.
            counted.1
              (All-weaken _ _ rows (λ row. (is_valid-IsTrusted as_text as_number row).1) trusted),
      )

  length_zero : {A : Type 0} (xs : List A) → length xs ≡ 0 → xs ≡ []
  length_zero [] e = refl
  length_zero (x ∷ xs) e = ground (arith, e)

  passed_lem :
      (report : ContractReport V)
      → (passed report ≡ true) ↔ ((0 < report.total) × (report.valid ≡ report.total))
  unfolding passed
  passed_lem report = ground arith

  passed-IsJudged :
      (rows : List (Dict String V)) (report : ContractReport V) (b : Bool)
      → passed report ≡ b
      → report.total ≡ length rows
      → report.valid ≡ count (is_valid as_text as_number) rows
      → report.valid + length report.violations ≡ length rows
      → IsJudged rows (if b then ok report else raise (data_contract_error report))
  passed-IsJudged rows report true e total valid violations =
      let (some_rows, all_valid) = (passed_lem report).0 e in
      (
        omega arith,
        (count-IsTrusted rows).0 (omega arith),
        total,
        omega arith,
        length_zero report.violations (omega arith),
      )
  passed-IsJudged rows report false e total valid violations = (
    λ (some_rows, trusted).
        let counted = (count-IsTrusted rows).1 trusted in
        let accepted = (passed_lem report).1 (omega arith, omega arith) in
        ground (arith, e, accepted),
    total,
    violations,
  )

  pub quality_gate-IsJudged :
      (rows : List (Dict String V)) → IsJudged rows (quality_gate as_text as_number rows)
  unfolding quality_gate validate_contract
  quality_gate-IsJudged rows =
      let report = validate_contract as_text as_number rows in
      let counts = validate_rows_lem as_text as_number 0 [] rows in
      passed-IsJudged rows report (passed report) refl refl (omega arith) (omega arith)
