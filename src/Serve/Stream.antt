-- ===== src/Serve/Stream.antt =====
-- `_stream_search` of dealfinder/serve.py. What each source answers, `statistics.median`, `str.strip`
-- and `str.lower` are parameters; an event is a value in place of its text.
pub mod Events
use tutorial_dealfinder.Base.{
  ℕ, String, Bool, true, false, Option, none, some, List, [], ◌∷◌, ◌++◌, map, keep, Dict, get_or,
  length, string_eq,
}
use tutorial_dealfinder.Licensing.{may_verdict, may_comingle}
use tutorial_dealfinder.Aggregate.{Product, best_from}
use tutorial_dealfinder.Shop.Scoring.{Mode, live, check}
use tutorial_dealfinder.Shop.Search.{Attribution, attribute}

-- A source: its name, where it has one, and what `available()` and `search(query)` do: none is an
-- exception, and a search may return None.
pub record StreamSource : Type 0 where
  pub name : Option String
  pub available : Option Bool
  pub search : Option (Option (List Product))

-- What the `try` block comes to.
pub data Landed : Type 0 where
  skipped failed : Landed
  landed : List Product → Landed

pub record Done : Type 0 where
  pub query : String
  pub count : ℕ
  pub median_price : Option ℕ
  pub attribution : List Attribution

pub data Event : Type 0 where
  source_error : String → Event
  results : String → List Product → Event
  done : Done → Event

-- `found = src.search(query) or []`
unfoldable pub land_found : Option (Option (List Product)) → Landed
land_found none = failed
land_found (some found) = landed (get_or found [])

-- the `try` block
unfoldable pub land : StreamSource → Landed
land src = elim src.available [
  | none ↦ failed
  | some false ↦ skipped
  | some true ↦ land_found src.search
]

-- `getattr(src, "name", "?")`
abbrev pub name_of : StreamSource → String
name_of src = get_or src.name "?"

-- the rows of a batch that may stand beside other stores'
abbrev pub mixable : List Product → List Product
mixable found = keep (λ p. may_comingle (some p.source)) found

-- `if batch: yield ...`
unfoldable pub batch_events : String → List Product → List Event
batch_events name [] = []
batch_events name (p ∷ batch) = results name (p ∷ batch) ∷ []

module _ (strip lower : String → String) where
  -- the loop over the sources, from the offers seen so far: those seen at its end, and the events
  unfoldable pub stream_sources :
      Dict String Product → List StreamSource → Dict String Product × List Event
  stream_sources seen [] = (seen, [])
  stream_sources seen (src ∷ sources) = elim (land src) [
    | skipped ↦ stream_sources seen sources
    | failed ↦
        let (seen', events) = stream_sources seen sources in
        (seen', source_error (name_of src) ∷ events)
    | landed found ↦
        let batch = mixable found in
        let (seen', events) = stream_sources (best_from strip lower seen batch) sources in
        (seen', batch_events (name_of src) batch ++ events)
  ]

  -- `round(statistics.median(rated), 2) if rated else 0.0`
  unfoldable pub median_of_rated : (List ℕ → ℕ) → List ℕ → ℕ
  median_of_rated median [] = 0
  median_of_rated median (p ∷ prices) = median (p ∷ prices)

  -- the `done` event
  unfoldable pub summary : Mode → (List ℕ → ℕ) → String → Dict String Product → Done
  summary mode median query seen =
      let items = map (λ x. x.1) seen in
      let rated = map (λ p. p.price) (keep (λ p. may_verdict (some p.source)) items) in
      record {
        query = query;
        count = length items;
        median_price = elim mode [ live ↦ some (median_of_rated median rated) | check ↦ none ];
        attribution = attribute [] (map (λ p. some p.source) items);
      }

  -- `_stream_search`
  unfoldable pub stream_search : Mode → (List ℕ → ℕ) → String → List StreamSource → List Event
  stream_search mode median query sources =
      let (seen, events) = stream_sources [] sources in
      events ++ done (summary mode median query seen) ∷ []
