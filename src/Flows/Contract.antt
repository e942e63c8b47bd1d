-- ===== src/Flows/Contract.antt =====
-- The contract of dealfinder/flows.py: the rows that pass, and what the gate lets through.
use tutorial_dealfinder.Base.{
  Amount, cents, debt, is_positive, ℕ, suc, ◌+◌, ◌<◌, ◌≡◌, ◌↔◌, refl, String, Bool, true, not, ◌&&◌,
  Option, none, some, List, [], ◌∷◌, keep, count, All, contains, Dict, lookup, has, length,
  if◌then◌else◌, is_some, string_eq, nat_eq, arith, count-le-length, length-append,
}
use tutorial_dealfinder.Flows.{
  known_categories, required_columns, SnapshotRow, Violation, row_violation, and_then, tally,
  text_at, number_at, snapshot_row, model_validate, check_row, validate_rows,
}

abbrev IsRead : {A : Type 0} → Option A → Type 0
IsRead {A} m = (a : A) × (m ≡ some a)

abbrev IsPrice : Option Amount → Type 0
IsPrice price = (n : ℕ) × (price ≡ some (cents n)) × (0 < n)

abbrev IsKnown : Option String → Type 0
IsKnown category = (c : String) × (category ≡ some c) × (contains known_categories c ≡ true)

-- the conditions on the fields
abbrev AreFields :
    Option String
    → Option String
    → Option String
    → Option String
    → Option Amount
    → Option Amount
    → Type 0
AreFields id query category title price median =
    IsRead id × IsRead query × IsKnown category × IsRead title × IsPrice price × IsRead median

positive-and_known :
    (n : ℕ) (known : Bool) (row : SnapshotRow)
    → (is_some (if is_positive (cents n) && known then some row else none) ≡ true)
      ↔ ((0 < n) × (known ≡ true))
positive-and_known n known row = ground arith

cents-injective : (n m : ℕ) → some (cents n) ≡ some (cents m) → n ≡ m
cents-injective n m e = cc

snapshot_row-AreFields :
    (id query category title : Option String) (price median : Option Amount)
    → (is_some (snapshot_row id query category title price median) ≡ true)
      ↔ AreFields id query category title price median
unfolding snapshot_row
snapshot_row-AreFields none query category title price median = ground (arith)
snapshot_row-AreFields (some i) none category title price median = ground (arith)
snapshot_row-AreFields (some i) (some q) none title price median = ground (arith)
snapshot_row-AreFields (some i) (some q) (some c) none price median = ground (arith)
snapshot_row-AreFields (some i) (some q) (some c) (some t) none median = ground (arith)
snapshot_row-AreFields (some i) (some q) (some c) (some t) (some (cents n)) none = ground (arith)
snapshot_row-AreFields (some i) (some q) (some c) (some t) (some (debt n)) none = ground (arith)
snapshot_row-AreFields (some i) (some q) (some c) (some t) (some (cents n)) (some m) = (
  λ e.
      let (positive, known) = (positive-and_known n (contains known_categories c) _).0 e in
      ((i, refl), (q, refl), (c, refl, known), (t, refl), (n, refl, positive), (m, refl)),
  λ (_, _, (c', at_c, known), _, (n', at_n, positive), _).
      (positive-and_known n (contains known_categories c) _).1
        (rw (cents-injective n n' at_n) positive, cc),
)
snapshot_row-AreFields (some i) (some q) (some c) (some t) (some (debt n)) (some m) = ground (arith)

pub count-All :
    {A : Type 0} (p : A → Bool) (xs : List A) → (count p xs ≡ length xs) ↔ All (λ x. p x ≡ true) xs
unfolding count
count-All p [] = (λ _. tt, λ _. refl)
count-All p (x ∷ xs) = ground (arith, count-All p xs, count-le-length p xs)

-- a row with its columns, as pydantic reads them, a price above nothing and a known category
module _ {V : Type 0} (as_text : V → Option String) (as_number : V → Option Amount) where
  abbrev pub IsTrusted : Dict String V → Type 0
  IsTrusted row =
      AreFields (text_at as_text as_number row "id") (text_at as_text as_number row "query")
        (text_at as_text as_number row "category") (text_at as_text as_number row "title")
        (number_at as_text as_number row "price")
        (number_at as_text as_number row "median_price_at_capture")

  abbrev pub is_valid : Dict String V → Bool
  is_valid row = not (is_some (check_row as_text as_number row))

  read-has :
      {A : Type 0} (read : V → Option A) (m : Option V)
      → IsRead (and_then m read)
      → is_some m ≡ true
  read-has read none (a, e) = ground (arith, e)
  read-has read (some v) _ = refl

  row_violation_lem :
      (id : Option V) (columns : List String) (row : Option SnapshotRow)
      → (not (is_some (row_violation id columns row)) ≡ true)
        ↔ ((columns ≡ []) × (is_some row ≡ true))
  row_violation_lem id [] none = ground arith
  row_violation_lem id [] (some row) = ground arith
  row_violation_lem id (c ∷ columns) row = ground arith

  IsTrusted-columns :
      (row : Dict String V) → IsTrusted row → keep (λ c. not (has row c)) required_columns ≡ []
  unfolding keep
  IsTrusted-columns row (id, query, (_, category, _), title, (_, price, _), median) =
      rw
        (
          read-has as_text (lookup row "id") id,
          read-has as_text (lookup row "query") query,
          read-has as_text (lookup row "category") (_, category),
          read-has as_text (lookup row "title") title,
          read-has as_number (lookup row "price") (_, price),
          read-has as_number (lookup row "median_price_at_capture") median,
        )
        refl

  pub is_valid-IsTrusted : (row : Dict String V) → (is_valid row ≡ true) ↔ IsTrusted row
  unfolding check_row model_validate
  is_valid-IsTrusted row =
      let fields =
        snapshot_row-AreFields (text_at as_text as_number row "id")
          (text_at as_text as_number row "query") (text_at as_text as_number row "category")
          (text_at as_text as_number row "title") (number_at as_text as_number row "price")
          (number_at as_text as_number row "median_price_at_capture") in
      let verdict =
        row_violation_lem (lookup row "id") (keep (λ c. not (has row c)) required_columns)
          (model_validate as_text as_number row) in
      (
        λ e. fields.0 (verdict.0 e).1,
        λ trusted. verdict.1 (IsTrusted-columns row trusted, fields.1 trusted),
      )

  tally_lem :
      (valid : ℕ) (violations : List (Violation V)) (v : Option (Violation V))
      → let t = tally valid violations v in
        (t.0 ≡ valid + (if not (is_some v) then 1 else 0))
        × (t.0 + length t.1 ≡ suc (valid + length violations))
  tally_lem valid violations none = omega arith
  tally_lem valid violations (some v) = omega (arith, length-append violations (v ∷ []))

  pub validate_rows_lem :
      (valid : ℕ) (violations : List (Violation V)) (rows : List (Dict String V))
      → let r = validate_rows as_text as_number valid violations rows in
        (r.0 ≡ valid + count is_valid rows)
        × (r.0 + length r.1 ≡ valid + length violations + length rows)
  unfolding validate_rows count
  validate_rows_lem valid violations [] = omega arith
  validate_rows_lem valid violations (row ∷ rows) =
      let v = check_row as_text as_number row in
      let t = tally valid violations v in
      omega (arith, tally_lem valid violations v, validate_rows_lem t.0 t.1 rows)
