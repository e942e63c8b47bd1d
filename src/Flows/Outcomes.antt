-- ===== src/Flows/Outcomes.antt =====
-- The pipeline of dealfinder/flows.py to its gate: what comes of the rows of a snapshot.
use tutorial_dealfinder.Base.{
  Amount, ◌+◌, ◌<◌, ◌≡◌, ◌↔◌, ◌⊎◌, inl, inr, refl, String, Option, none, some, List, [], ◌∷◌, All,
  Dict, lookup, insert, length, string_eq, nat_eq, Result, ok, raise, or_raise, ◌>>=◌, arith,
  lookup-insert,
}
use tutorial_dealfinder.Flows.{
  ContractReport, FlowError, key_error, brand_error, data_contract_error, quality_gate,
  normalize_rows, gated_rows,
}
use tutorial_dealfinder.Flows.Contract.{IsTrusted}
use tutorial_dealfinder.Flows.Gate.{IsJudged, quality_gate-IsJudged}

module _ {V : Type 0} (as_text : V → Option String) (as_number : V → Option Amount) where
  -- its title can be read, and a brand found in it
  abbrev pub HasBrand : (V → Option V) → Dict String V → Type 0
  HasBrand title_brand row =
      (title : V) × (brand : V) × (lookup row "title" ≡ some title)
      × (title_brand title ≡ some brand)

  -- the first row without a brand has no title
  abbrev pub LacksTitle : (V → Option V) → List (Dict String V) → Type 0
  LacksTitle title_brand [] = ⊥
  LacksTitle title_brand (row ∷ rows) =
      (lookup row "title" ≡ none) ⊎ (HasBrand title_brand row × LacksTitle title_brand rows)

  -- the first row without a brand has a title that `title_brand` does not take
  abbrev pub LacksBrand : (V → Option V) → List (Dict String V) → Type 0
  LacksBrand title_brand [] = ⊥
  LacksBrand title_brand (row ∷ rows) =
      ((title : V) × (lookup row "title" ≡ some title) × (title_brand title ≡ none))
      ⊎ (HasBrand title_brand row × LacksBrand title_brand rows)

  insert-IsTrusted :
      (row : Dict String V) (brand : V)
      → IsTrusted as_text as_number (insert row "true_brand" brand)
        ↔ IsTrusted as_text as_number row
  insert-IsTrusted row brand =
      rw
        (
          lookup-insert row "true_brand" "id" brand,
          lookup-insert row "true_brand" "query" brand,
          lookup-insert row "true_brand" "category" brand,
          lookup-insert row "true_brand" "title" brand,
          lookup-insert row "true_brand" "price" brand,
          lookup-insert row "true_brand" "median_price_at_capture" brand,
        )
        (λ x. x, λ x. x)

  -- what comes of reading the brands
  abbrev IsNormalized :
      (V → Option V) → List (Dict String V) → Result (FlowError V) (List (Dict String V)) → Type 0
  IsNormalized title_brand rows (ok normalized) =
      All (HasBrand title_brand) rows
      × (length normalized ≡ length rows)
      × (All (IsTrusted as_text as_number) normalized ↔ All (IsTrusted as_text as_number) rows)
  IsNormalized title_brand rows (raise (key_error c)) = (c ≡ "title") × LacksTitle title_brand rows
  IsNormalized title_brand rows (raise brand_error) = LacksBrand title_brand rows
  IsNormalized title_brand rows (raise (data_contract_error report)) = ⊥

  -- the row is read and put before the others
  abbrev put_row :
      Dict String V
      → V
      → Result (FlowError V) (List (Dict String V))
      → Result (FlowError V) (List (Dict String V))
  put_row row brand rest = rest >>= λ rest. ok (insert row "true_brand" brand ∷ rest)

  put_row-IsNormalized :
      (title_brand : V → Option V) (row : Dict String V) (rows : List (Dict String V))
      (has_brand : HasBrand title_brand row) (rest : Result (FlowError V) (List (Dict String V)))
      → IsNormalized title_brand rows rest
      → IsNormalized title_brand (row ∷ rows) (put_row row has_brand.1 rest)
  put_row-IsNormalized title_brand row rows has_brand (ok rest) (brands, same, trusted) =
      let here = insert-IsTrusted row has_brand.1 in
      (
        (has_brand, brands),
        omega arith,
        (λ (h, t). (here.0 h, trusted.0 t), λ (h, t). (here.1 h, trusted.1 t)),
      )
  put_row-IsNormalized title_brand row rows has_brand (raise (key_error c)) (e, lacks) =
      (e, inr (has_brand, lacks))
  put_row-IsNormalized title_brand row rows has_brand (raise brand_error) lacks =
      inr (has_brand, lacks)
  put_row-IsNormalized title_brand row rows has_brand (raise (data_contract_error report)) h =
      elim h [ ]

  or_raise-IsNormalized :
      (title_brand : V → Option V) (row : Dict String V) (rows : List (Dict String V))
      (rest : Result (FlowError V) (List (Dict String V)))
      → IsNormalized title_brand rows rest
      → (title : Option V) → lookup row "title" ≡ title
      → IsNormalized title_brand (row ∷ rows) (
          or_raise title (key_error "title") >>= λ title.
          or_raise (title_brand title) brand_error >>= λ brand. put_row row brand rest)
  or_raise-IsNormalized title_brand row rows rest h none e = (refl, inl e)
  or_raise-IsNormalized title_brand row rows rest h (some title) e =
      branded (title_brand title) refl
    where
      branded :
          (brand : Option V)
          → title_brand title ≡ brand
          → IsNormalized title_brand
              (row ∷ rows)
              (or_raise brand brand_error >>= λ brand. put_row row brand rest)
      branded none found = inl (title, e, found)
      branded (some brand) found =
          put_row-IsNormalized title_brand row rows (title, brand, e, found) rest h

  normalize_rows-IsNormalized :
      (title_brand : V → Option V) (rows : List (Dict String V))
      → IsNormalized title_brand rows (normalize_rows as_text as_number title_brand rows)
  unfolding normalize_rows
  normalize_rows-IsNormalized title_brand [] = (tt, refl, (λ h. h, λ h. h))
  normalize_rows-IsNormalized title_brand (row ∷ rows) =
      or_raise-IsNormalized title_brand row rows _ (normalize_rows-IsNormalized title_brand rows)
        (lookup row "title") refl

  -- what comes of a snapshot's rows
  abbrev pub IsGated :
      (V → Option V)
      → List (Dict String V)
      → Result (FlowError V) (List (Dict String V) × ContractReport V)
      → Type 0
  IsGated title_brand rows (ok (normalized, report)) =
      All (HasBrand title_brand) rows
      × (0 < length rows)
      × All (IsTrusted as_text as_number) rows
      × All (IsTrusted as_text as_number) normalized
      × (length normalized ≡ length rows)
      × (report.total ≡ length rows)
      × (report.valid ≡ length rows)
      × (report.violations ≡ [])
  IsGated title_brand rows (raise (data_contract_error report)) =
      All (HasBrand title_brand) rows
      × ¬ ((0 < length rows) × All (IsTrusted as_text as_number) rows)
      × (report.total ≡ length rows)
      × (report.valid + length report.violations ≡ length rows)
  IsGated title_brand rows (raise (key_error c)) = (c ≡ "title") × LacksTitle title_brand rows
  IsGated title_brand rows (raise brand_error) = LacksBrand title_brand rows

  quality_gate-IsGated :
      (title_brand : V → Option V) (rows normalized : List (Dict String V))
      (judged : Result (FlowError V) (ContractReport V))
      → IsNormalized title_brand rows (ok normalized)
      → IsJudged as_text as_number normalized judged
      → IsGated title_brand rows (judged >>= λ report. ok (normalized, report))
  quality_gate-IsGated title_brand rows normalized (ok report) (brands, same, trusted)
        (n, all, total, valid, none_left) =
      (brands, omega arith, trusted.0 all, all, same, omega arith, omega arith, none_left)
  quality_gate-IsGated title_brand rows normalized (raise (data_contract_error report))
        (brands, same, trusted) (refused, total, split) =
      (brands, λ (n, all). refused (omega arith, trusted.1 all), omega arith, omega arith)
  quality_gate-IsGated title_brand rows normalized (raise (key_error c)) _ h = elim h [ ]
  quality_gate-IsGated title_brand rows normalized (raise brand_error) _ h = elim h [ ]

  normalize_rows-IsGated :
      (title_brand : V → Option V) (rows : List (Dict String V))
      (normalized : Result (FlowError V) (List (Dict String V)))
      → IsNormalized title_brand rows normalized
      → IsGated title_brand rows (
          normalized >>= λ normalized.
          quality_gate as_text as_number normalized >>= λ report. ok (normalized, report))
  normalize_rows-IsGated title_brand rows (ok normalized) h =
      quality_gate-IsGated title_brand rows normalized (quality_gate as_text as_number normalized) h
        (quality_gate-IsJudged as_text as_number normalized)
  normalize_rows-IsGated title_brand rows (raise (key_error c)) h = h
  normalize_rows-IsGated title_brand rows (raise brand_error) h = h
  normalize_rows-IsGated title_brand rows (raise (data_contract_error report)) h = elim h [ ]

  -- The pipeline to its gate has exactly these outcomes. The rows and a clean report, where there are
  -- rows, all with a brand and all within the contract. The contract's error, with a report that
  -- counts every row once, where all have a brand and some row breaks the contract or there is none.
  -- Otherwise the error of the first row without a brand: a KeyError, which the contract never sees,
  -- where it has no title.
  pub gated_rows_lem :
      (title_brand : V → Option V) (rows : List (Dict String V))
      → IsGated title_brand rows (gated_rows as_text as_number title_brand rows)
  unfolding gated_rows
  gated_rows_lem title_brand rows =
      normalize_rows-IsGated title_brand rows _ (normalize_rows-IsNormalized title_brand rows)
