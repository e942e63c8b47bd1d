-- ===== src/Flows.antt =====
-- dealfinder/flows.py: the rows of the snapshot, the contract on them and the gate. What a JSON value
-- is, how pydantic reads it as a string or a number, and `title_brand` are parameters; a price is
-- whole cents. The text of a pydantic error is not modelled.
pub mod Contract
pub mod Gate
pub mod Outcomes
mod Tests
use tutorial_dealfinder.Base.{
  Amount, is_positive, ℕ, zero, suc, String, Bool, true, false, not, ◌&&◌, ◌==◌, Option, none, some,
  List, [], ◌∷◌, ◌++◌, map, keep, contains, leb, ltb, nat_beq, Dict, lookup, insert, has, length,
  if◌then◌else◌, string_eq, nat_eq, Result, ok, raise, or_raise, guard, ◌>>=◌, ◌>>◌,
}

-- `CATEGORY_CODES`, its keys
abbrev pub known_categories : List String
known_categories =
    "accessories" ∷ "peripherals" ∷ "storage" ∷ "audio" ∷ "smart-home" ∷ "wearables" ∷ "mobile"
    ∷ "components" ∷ "displays" ∷ "computers" ∷ "misc" ∷ []

-- `REQUIRED_COLUMNS`
abbrev pub required_columns : List String
required_columns = "id" ∷ "query" ∷ "category" ∷ "title" ∷ "price" ∷ "median_price_at_capture" ∷ []

pub record SnapshotRow : Type 0 where
  pub id : String
  pub query : String
  pub category : String
  pub title : String
  pub price : Amount
  pub median_price_at_capture : Amount

-- the violations of a row with the `id` it has, if any
pub data Violation (V : Type 0) : Type 0 where
  missing : Option V → List String → Violation V
  invalid : Option V → Violation V

pub record ContractReport (V : Type 0) : Type 0 where
  pub total : ℕ
  pub valid : ℕ
  pub violations : List (Violation V)

pub data FlowError (V : Type 0) : Type 0 where
  key_error : String → FlowError V
  brand_error : FlowError V
  data_contract_error : ContractReport V → FlowError V

-- `ContractReport.passed`
unfoldable pub passed : {V : Type 0} → ContractReport V → Bool
passed report = ltb 0 report.total && nat_beq report.valid report.total

abbrev pub and_then : {A B : Type 0} → Option A → (A → Option B) → Option B
and_then none f = none
and_then (some a) f = f a

-- the fields as read, then the validators `_price_positive` and `_category_known`
unfoldable pub snapshot_row :
    Option String
    → Option String
    → Option String
    → Option String
    → Option Amount
    → Option Amount
    → Option SnapshotRow
snapshot_row id query category title price median = and_then id λ id. and_then query λ query.
    and_then category λ category. and_then title λ title. and_then price λ price.
      and_then median λ median.
        if is_positive price && contains known_categories category
        then some (record {
          id = id;
          query = query;
          category = category;
          title = title;
          price = price;
          median_price_at_capture = median;
        })
        else none

-- one turn of the loop over the rows
abbrev pub tally :
    {V : Type 0} → ℕ → List (Violation V) → Option (Violation V) → ℕ × List (Violation V)
tally valid violations none = (suc valid, violations)
tally valid violations (some v) = (valid, violations ++ v ∷ [])

-- the violation of a row, of the columns it misses and of what validation gives
abbrev pub row_violation :
    {V : Type 0} → Option V → List String → Option SnapshotRow → Option (Violation V)
row_violation id (c ∷ cs) row = some (missing id (c ∷ cs))
row_violation id [] (some row) = none
row_violation id [] none = some (invalid id)

module _ {V : Type 0} (as_text : V → Option String) (as_number : V → Option Amount) where
  abbrev pub text_at : Dict String V → String → Option String
  text_at row column = and_then (lookup row column) as_text

  abbrev pub number_at : Dict String V → String → Option Amount
  number_at row column = and_then (lookup row column) as_number

  -- `SnapshotRow.model_validate`
  unfoldable pub model_validate : Dict String V → Option SnapshotRow
  model_validate row =
      snapshot_row (text_at row "id") (text_at row "query") (text_at row "category")
        (text_at row "title") (number_at row "price") (number_at row "median_price_at_capture")

  -- the violation of a row, if it has one
  unfoldable pub check_row : Dict String V → Option (Violation V)
  check_row row =
      row_violation (lookup row "id") (keep (λ c. not (has row c)) required_columns)
        (model_validate row)

  unfoldable pub validate_rows :
      ℕ → List (Violation V) → List (Dict String V) → ℕ × List (Violation V)
  validate_rows valid violations [] = (valid, violations)
  validate_rows valid violations (row ∷ rows) =
      let (valid', violations') = tally valid violations (check_row row) in
      validate_rows valid' violations' rows

  -- `validate_contract`
  unfoldable pub validate_contract : List (Dict String V) → ContractReport V
  validate_contract rows =
      let (valid, violations) = validate_rows 0 [] rows in
      record { total = length rows; valid = valid; violations = violations }

  -- `quality_gate`
  unfoldable pub quality_gate : List (Dict String V) → Result (FlowError V) (ContractReport V)
  quality_gate rows =
      let report = validate_contract rows in
      if passed report then ok report else raise (data_contract_error report)

  module _ (title_brand : V → Option V) where
    -- `normalize_rows`: `r["title"]` is read before the contract is checked
    unfoldable pub normalize_rows :
        List (Dict String V) → Result (FlowError V) (List (Dict String V))
    normalize_rows [] = ok []
    normalize_rows (row ∷ rows) = or_raise (lookup row "title") (key_error "title") >>= λ title.
        or_raise (title_brand title) brand_error >>= λ brand.
        normalize_rows rows >>= λ rest. ok (insert row "true_brand" brand ∷ rest)

    -- `_run_pipeline`, to the gate
    unfoldable pub gated_rows :
        List (Dict String V) → Result (FlowError V) (List (Dict String V) × ContractReport V)
    gated_rows rows = normalize_rows rows >>= λ normalized.
        quality_gate normalized >>= λ report. ok (normalized, report)
