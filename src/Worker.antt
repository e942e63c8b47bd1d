-- ===== src/Worker.antt =====
-- dealfinder/worker.py: saved searches and the suggestions job. The search over the catalog
-- (`search_catalog`, with its embeddings and price models) and the threshold test on a score are
-- parameters; prices and scores are left abstract.
pub mod Novelty
mod Tests
use tutorial_dealfinder.Base.{
  ℕ, String, Bool, true, false, Option, none, some, List, [], ◌∷◌, ◌++◌, map, if◌then◌else◌, keep,
  contains, Dict, lookup, insert, get_or, string_eq, pair_eq,
}

pub record SavedSearch : Type 0 where
  pub user_id : String
  pub query : String
  pub k : ℕ

-- `SuggestionState.seen`; a set of ids is a list without repetitions
abbrev pub SuggestionState : Type 0
SuggestionState = Dict (String × String) (List String)

-- `SuggestionState.key`
abbrev pub key : SavedSearch → String × String
key s = (s.user_id, s.query)

-- `already_seen`
unfoldable pub already_seen : SuggestionState → SavedSearch → List String
already_seen state s = get_or (lookup state (key s)) []

-- `set.update`
unfoldable pub update : List String → List String → List String
update ids [] = ids
update ids (x ∷ xs) = update (if contains ids x then ids else ids ++ x ∷ []) xs

-- `mark_seen`
unfoldable pub mark_seen : SuggestionState → SavedSearch → List String → SuggestionState
mark_seen state s ids = insert state (key s) (update (already_seen state s) ids)

-- `if fresh_ids: new_state.mark_seen(s, fresh_ids)`
unfoldable pub remember : SuggestionState → SavedSearch → List String → SuggestionState
remember state s [] = state
remember state s (x ∷ xs) = mark_seen state s (x ∷ xs)

pub record Product (Price : Type 0) : Type 0 where
  pub id : String
  pub title : String
  pub price : Price

pub record Notification (Price Score : Type 0) : Type 0 where
  pub user_id : String
  pub query : String
  pub item_id : String
  pub title : String
  pub price : Price
  pub deal_score : Score

-- A result of `search_catalog`: a position in the catalog, the product and its deal score.
pub record Hit (Price Score : Type 0) : Type 0 where
  pub index : ℕ
  pub product : Product Price
  pub score : Score

module _ {Price Score : Type 0} where
  unfoldable pub note_of : SavedSearch → Product Price × Score → Notification Price Score
  note_of s (p, score) = record {
    user_id = s.user_id;
    query = s.query;
    item_id = p.id;
    title = p.title;
    price = p.price;
    deal_score = score;
  }

  -- the loop over the deals of one saved search: the notifications, and `fresh_ids`
  unfoldable pub fresh :
      SavedSearch
      → List String
      → List (Product Price × Score)
      → List (Notification Price Score) × List String
  fresh s seen [] = ([], [])
  fresh s seen (d ∷ deals) =
      let (notes, ids) = fresh s seen deals in
      if contains seen d.0.id then (notes, ids) else (note_of s d ∷ notes, d.0.id ∷ ids)

  -- `search` is `search_catalog` over the catalog at hand, `clears` is `score >= DEAL_SCORE_THRESHOLD`
  module _ (search : String → ℕ → List (Hit Price Score)) (clears : Score → Bool) where
    -- `find_deals`
    unfoldable pub find_deals : String → ℕ → List (Product Price × Score)
    find_deals query k =
        map (λ h. (h.product, h.score)) (keep (λ h. clears h.score) (search query k))

    -- `run_suggestions`: what the notifier sends is what is returned, in the same order
    unfoldable pub run_suggestions :
        List SavedSearch → SuggestionState → List (Notification Price Score) × SuggestionState
    run_suggestions [] state = ([], state)
    run_suggestions (s ∷ saved) state =
        let (notes, ids) = fresh s (already_seen state s) (find_deals s.query s.k) in
        let (rest, final) = run_suggestions saved (remember state s ids) in (notes ++ rest, final)
