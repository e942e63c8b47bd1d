-- ===== src/Flows/Tests.antt =====
-- Runs of dealfinder/flows.py, and its theorem at a concrete input.
use tutorial_dealfinder.Base.{
  Amount, cents, ◌≡◌, refl, String, Option, none, some, List, [], ◌∷◌, keep, contains, Dict, lookup,
  insert, raise, string_eq,
}
use tutorial_dealfinder.Flows.{
  missing, invalid, key_error, passed, snapshot_row, model_validate, check_row, validate_rows,
  validate_contract, quality_gate, normalize_rows, gated_rows,
}
use tutorial_dealfinder.Flows.Outcomes.{IsGated, gated_rows_lem}

program : Unit {0}
unfolding passed snapshot_row model_validate check_row validate_rows validate_contract quality_gate
    normalize_rows gated_rows keep contains lookup insert
program = tt

-- a JSON value
data Value : Type 0 where
  text : String → Value
  amount : Amount → Value

abbrev as_text : Value → Option String
as_text (text s) = some s
as_text (amount n) = none

abbrev as_number : Value → Option Amount
as_number (text s) = none
as_number (amount n) = some n

abbrev title_brand : Value → Option Value
title_brand (text s) = some (text "sony")
title_brand (amount n) = none

abbrev row : String → Amount → Dict String Value
row category price =
    ("id", text "a")
    ∷ ("query", text "headphones")
    ∷ ("category", text category)
    ∷ ("title", text "Sony WH")
    ∷ ("price", amount price)
    ∷ ("median_price_at_capture", amount (cents 30000))
    ∷ []

abbrev untitled : Dict String Value
untitled = ("id", text "b") ∷ ("query", text "headphones") ∷ []

abbrev rows : List (Dict String Value)
rows = row "audio" (cents 25000) ∷ row "audio" (cents 0) ∷ row "garden" (cents 100) ∷ []

judged : validate_contract as_text as_number (untitled ∷ rows) ≡ record {
  total = 4;
  valid = 1;
  violations =
      missing (some (text "b")) ("category" ∷ "title" ∷ "price" ∷ "median_price_at_capture" ∷ [])
      ∷ invalid (some (text "a"))
      ∷ invalid (some (text "a"))
      ∷ [];
}
unfolding program
judged = refl

-- the contract would name the missing columns, but the title is read first
untitled_fails :
    gated_rows as_text as_number title_brand (untitled ∷ []) ≡ raise (key_error "title")
unfolding program
untitled_fails = refl

gated_rows_lem_example :
    IsGated as_text as_number title_brand rows (gated_rows as_text as_number title_brand rows)
gated_rows_lem_example = gated_rows_lem as_text as_number title_brand rows
