-- ===== src/Licensing.antt =====
-- dealfinder/licensing.py: what each store's terms allow, and the permissions that are asked before
-- every signal.
pub mod Retention
pub mod Permissions
mod Tests
use Prim.Native.Char.{code}
use tutorial_dealfinder.Base.{
  ℕ, String, Bool, true, false, ◌&&◌, Option, none, some, List, [], ◌∷◌, ◌++◌, map, keep, nat_beq,
  if◌then◌else◌, Dict, lookup, insert, string_eq,
}

pub record SourcePolicy : Type 0 where
  pub key : String
  pub verdicts : Bool
  pub store : Bool
  pub embed : Bool
  pub comingle : Bool
  -- seconds
  pub max_age_s : ℕ
  pub launch : Bool
  pub attribution : Option (Dict String String)

-- `_course`
abbrev pub course : String → SourcePolicy
course key = record {
  key = key;
  verdicts = true;
  store = true;
  embed = true;
  comingle = true;
  max_age_s = 259200;
  launch = false;
  attribution = none;
}

abbrev pub bestbuy : SourcePolicy
bestbuy = record {
  key = "BestBuy";
  verdicts = true;
  store = true;
  embed = true;
  comingle = true;
  max_age_s = 259200;
  launch = true;
  attribution = some (
      ("source", "BestBuy")
      ∷ ("text", "Prices and product data from Best Buy")
      ∷ ("url", "https://www.bestbuy.com")
      ∷ ("logo", "bestbuy")
      ∷ []);
}

abbrev pub ebay : SourcePolicy
ebay = record {
  key = "eBay";
  verdicts = false;
  store = false;
  embed = false;
  comingle = false;
  max_age_s = 21600;
  launch = true;
  attribution = none;
}

-- `POLICIES`
abbrev pub policies : Dict String SourcePolicy
policies =
    ("BestBuy", bestbuy)
    ∷ ("eBay", ebay)
    ∷ map (λ k. (k, course k))
        ("RapidAPI" ∷ "Apify" ∷ "Amazon" ∷ "Shopify" ∷ "Firecrawl" ∷ "iTunes" ∷ [])

-- `LAUNCH_SOURCES`
abbrev pub launch_sources : List String
launch_sources = map (λ e. e.0) (keep (λ e. e.1.launch) policies)

-- `source.split(":", 1)[0]`
unfoldable pub before_colon : String → String
before_colon String.[] = ""
before_colon (String.◌∷◌ c s) =
    let rest = before_colon s in if nat_beq (code c) b':' then "" else String.◌∷◌ c rest

-- `source_key`: `source or ""`
unfoldable pub source_key : Option String → String
source_key none = ""
source_key (some source) = before_colon source

unfoldable pub policy_for : Option String → Option SourcePolicy
policy_for source = lookup policies (source_key source)

-- `bool(p and p.verdicts)`, and the same for the other permissions
unfoldable pub may_verdict : Option String → Bool
may_verdict source = elim (policy_for source) [ none ↦ false | some p ↦ p.verdicts ]

unfoldable pub may_store : Option String → Bool
may_store source = elim (policy_for source) [ none ↦ false | some p ↦ p.store ]

unfoldable pub may_embed : Option String → Bool
may_embed source = elim (policy_for source) [ none ↦ false | some p ↦ p.embed ]

unfoldable pub may_comingle : Option String → Bool
may_comingle source = elim (policy_for source) [ none ↦ false | some p ↦ p.comingle ]
