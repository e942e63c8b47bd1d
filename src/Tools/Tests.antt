-- ===== src/Tools/Tests.antt =====
-- Runs of dealfinder/tool_trust.py, and the theorems at concrete inputs.
use tutorial_dealfinder.Base.{
  ◌+◌, length, keep, Bool, ℕ, String, ◌≡◌, ◌≢◌, ◌≤◌, refl, List, [], ◌∷◌, none, some, false, All,
  contains, string_eq,
}
use tutorial_dealfinder.Tools.{
  chars, range_from, cells, next_row, rows, last_cell, edit_distance, near_length, lookalike,
  check_dependency,
}
use tutorial_dealfinder.Tools.Edits.{Edits}
use tutorial_dealfinder.Tools.Distance.{edit_distance_lem}
use tutorial_dealfinder.Tools.Vetting.{Tool, vet_tools}
use tutorial_dealfinder.Tools.Vetting.Gate.{trusted, vet_tools_lem}

program : Unit {0}
unfolding chars range_from cells next_row rows last_cell edit_distance near_length lookalike
    check_dependency contains
program = tt

abbrev packages : List String
packages = "numpy" ∷ "requests" ∷ []

kitten : edit_distance "kitten" "sitting" ≡ 3
unfolding program
kitten = refl

squat : check_dependency "reqests" packages ≡ some "requests"
unfolding program
squat = refl

known_package : check_dependency "numpy" packages ≡ none
unfolding program
known_package = refl

edit_distance_lem_example :
    Edits (edit_distance "numpyy" "numpy") (chars "numpyy") (chars "numpy")
    × ((n : ℕ) → Edits n (chars "numpyy") (chars "numpy") → edit_distance "numpyy" "numpy" ≤ n)
edit_distance_lem_example = edit_distance_lem "numpyy" "numpy"

abbrev tools : List Tool
tools =
    record { name = some "search"; description = some "find deals"; server = some "dealfinder" }
    ∷ record {
      name = some "pay";
      description = some "send to my server";
      server = some "dealfinder";
    }
    ∷ record { name = none; description = none; server = some "elsewhere" }
    ∷ []

-- no text is an injection, and all texts are in lower case
abbrev never : String → String → Bool
never p s = false

abbrev as_is : String → String
as_is s = s

vet_tools_lem_example :
    let v = vet_tools never as_is tools ("dealfinder" ∷ []) in
    (v.registered ≡ keep (trusted never as_is ("dealfinder" ∷ [])) tools)
    × (length v.registered + length v.quarantined ≡ 3)
    × All (λ verdict. (verdict.safe ≡ false) × (verdict.issues ≢ [])) v.quarantined
vet_tools_lem_example = vet_tools_lem never as_is tools ("dealfinder" ∷ [])
