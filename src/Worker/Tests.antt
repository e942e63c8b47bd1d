-- ===== src/Worker/Tests.antt =====
-- Runs of dealfinder/worker.py, and the theorems at concrete inputs. Prices and scores are numbers.
use tutorial_dealfinder.Base.{
  ℕ, String, ◌≡◌, refl, Bool, ◌||◌, List, [], ◌∷◌, keep, contains, lookup, insert, string_eq, leb,
  map,
}
use tutorial_dealfinder.Worker.{
  SavedSearch, SuggestionState, already_seen, update, mark_seen, Hit, note_of, fresh, remember,
  find_deals, run_suggestions,
}
use tutorial_dealfinder.Worker.Novelty.{told, run_suggestions-seen}

program : Unit {0}
unfolding lookup insert keep contains already_seen update mark_seen note_of fresh remember
    find_deals run_suggestions
program = tt

abbrev hit : ℕ → String → ℕ → Hit ℕ ℕ
hit i id score = record {
  index = i;
  product = record { id = id; title = id; price = 45 };
  score = score;
}

-- one product is no deal
abbrev search : String → ℕ → List (Hit ℕ ℕ)
search query k = hit 0 "q20i" 72 ∷ hit 1 "xm5" 10 ∷ hit 2 "tune" 40 ∷ []

abbrev clears : ℕ → Bool
clears score = leb 30 score

abbrev ann : SavedSearch
ann = record { user_id = "ann"; query = "headphones"; k = 5 }

abbrev bob : SavedSearch
bob = record { user_id = "bob"; query = "headphones"; k = 5 }

abbrev known : SuggestionState
known = (("ann", "headphones"), "tune" ∷ []) ∷ []

notified :
    map (λ n. n.item_id) (run_suggestions search clears (ann ∷ bob ∷ ann ∷ []) known).0
    ≡ "q20i" ∷ "q20i" ∷ "tune" ∷ []
unfolding program
notified = refl

run_suggestions-seen_example :
    contains (already_seen (run_suggestions search clears (ann ∷ []) known).1 ann) "q20i" ≡ (
      contains (already_seen known ann) "q20i"
      || told (run_suggestions search clears (ann ∷ []) known).0 ann "q20i")
run_suggestions-seen_example = run_suggestions-seen search clears (ann ∷ []) known ann "q20i"
