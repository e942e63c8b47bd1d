-- ===== src/Sources/Enabled.antt =====
-- Which connectors of dealfinder/live_sources.py a search asks, over dealfinder/licensing.py.
pub mod Launch
use tutorial_dealfinder.Base.{
  ℕ, String, Bool, true, false, not, ◌&&◌, ◌==◌, Option, none, some, List, [], ◌∷◌, map, keep,
  contains, if◌then◌else◌, Result, ok, raise, ◌>>=◌, ◌>>◌, string_eq, get_or,
}
use tutorial_dealfinder.Licensing.{policy_for}
use tutorial_dealfinder.Aggregate.{Source}
use tutorial_dealfinder.Sources.{
  Builtins, Error, unset, unknown_source, served_by_the_box, not_a_launch_source, paid_ok, is_text,
  is_set,
}

-- A connector as the aggregation sees it, in this environment.
abbrev pub source : String → Bool → Option ℕ → Option Bool → Source
source name is_available tier fallback_only = record {
  name = name;
  is_available = is_available;
  tier = tier;
  fallback_only = fallback_only;
}

-- `LIVE_SOURCES`, with `available`, `tier` and `fallback_only` of each
unfoldable pub live_sources : (String → Option String) → List Source
live_sources env =
    let apify = is_set (env "APIFY_TOKEN") && paid_ok env in
    source "RapidAPI" (is_set (env "RAPIDAPI_KEY")) (some 1) none
    ∷ source "BestBuy" (is_set (env "BESTBUY_API_KEY")) (some 1) none
    ∷ source "Amazon" apify (some 2) none
    ∷ source "Apify" apify (some 2) none
    ∷ source "Shopify" true (some 3) none
    ∷ source "Firecrawl" (is_set (env "FIRECRAWL_API_KEY") && paid_ok env) (some 3) none
    ∷ source "iTunes" true none (some true)
    ∷ []

-- `policy and policy.launch`
abbrev pub may_launch : String → Bool
may_launch name = elim (policy_for (some name)) [ none ↦ false | some p ↦ p.launch ]

module _ (b : Builtins) where
  -- `asked`
  abbrev pub asked_names : String → List String
  asked_names raw = keep (λ s. not (s == "")) (map b.strip (b.split_commas raw))

  -- the loop that refuses a name
  unfoldable pub check_names : List String → List String → Result Error (Unit {0})
  check_names known [] = ok tt
  check_names known (name ∷ names) =
      if b.lower name == b.lower "eBay"
      then raise (served_by_the_box name)
      else if contains known (b.lower name)
      then check_names known names
      else raise (unknown_source name)

  -- the loop over the chosen sources in production
  unfoldable pub check_launch : List Source → Result Error (Unit {0})
  check_launch [] = ok tt
  check_launch (s ∷ sources) =
      let rest = check_launch sources in
      if may_launch s.name then rest else raise (not_a_launch_source s.name)

  -- `[s for s in LIVE_SOURCES if s.name.lower() in wanted]`
  abbrev pub chosen : List String → List Source → List Source
  chosen names sources =
      let wanted = map b.lower names in keep (λ s. contains wanted (b.lower s.name)) sources

  -- the sources of the names asked for
  unfoldable pub enabled_from : List Source → Bool → List String → Result Error (List Source)
  enabled_from sources production [] = if production then raise unset else ok sources
  enabled_from sources production (name ∷ names) = do
    check_names (map (λ s. b.lower s.name) sources) (name ∷ names)
    (if production then check_launch (chosen (name ∷ names) sources) else ok tt)
    ok (chosen (name ∷ names) sources)

  -- `enabled_sources`
  unfoldable pub enabled_sources :
      (String → Option String) → Option String → Result Error (List Source)
  enabled_sources env names =
      enabled_from (live_sources env) (is_text (env "DEALFINDER_ENV") "production")
        (asked_names (get_or names (get_or (env "DEALFINDER_SOURCES") "")))
