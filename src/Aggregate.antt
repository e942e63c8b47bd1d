-- ===== src/Aggregate.antt =====
-- dealfinder/aggregate.py: the tiered search of the stores and the cheapest offer per exact key,
-- with dealfinder/ingest.py. What each store answers, the clock, `str.strip` and
-- `str.lower` are parameters. Prices are whole cents, times whole seconds.
pub mod Cheapest
pub mod Cooldown
pub mod Catalog
pub mod Ranked
pub mod Reply
pub mod Undercut
mod Tests
use Prim.Native.String.{◌++◌ as str_append}
use tutorial_dealfinder.Base.{
  ℕ, suc, ◌+◌, String, Bool, true, false, not, ◌&&◌, ◌||◌, Option, none, some, List, [], ◌∷◌, ◌++◌,
  map, nat_beq, ltb, leb, if◌then◌else◌, length, keep, contains, Dict, lookup, insert, get_or, sort,
  string_eq, nat_eq, Comparable, ◌==◌,
}

-- `COOLDOWN_SECONDS`, `TARGET_RESULTS`
abbrev pub cooldown_seconds : ℕ
cooldown_seconds = 90

abbrev pub target_results : ℕ
target_results = 12

pub record Product : Type 0 where
  pub id : String
  pub brand : Option String
  pub title : String
  pub price : ℕ
  pub source : String
  pub url : String
  pub image_url : Option String

-- A source; `tier` and `fallback_only` are nothing where the object has no such attribute.
pub record Source : Type 0 where
  pub name : String
  pub is_available : Bool
  pub tier : Option ℕ
  pub fallback_only : Option Bool

-- What becomes of a source's search: it misses the deadline, it raises, or it finds products.
pub data Outcome : Type 0 where
  late failed : Outcome
  found : List Product → Outcome

-- The lists that the search fills, and the cooldown table.
pub record Progress : Type 0 where
  pub cooldown : Dict String ℕ
  pub products : List Product
  pub live : List String
  pub throttled : List String
  pub timed_out : List String

-- `_tier`
abbrev pub tier_of : Source → ℕ
tier_of s = get_or s.tier 5

-- `_is_fallback`
abbrev pub is_fallback : Source → Bool
is_fallback s = get_or s.fallback_only false

-- `_benched`, at the time `now`
unfoldable pub is_benched : Dict String ℕ → ℕ → String → Bool
is_benched cooldown now name = ltb now (get_or (lookup cooldown name) 0)

-- `_bench`, at the time `now`
unfoldable pub bench : Dict String ℕ → String → ℕ → Dict String ℕ
bench cooldown name now = insert cooldown name (now + cooldown_seconds)

-- a set, as the list of its items
unfoldable pub distinct {ℓ} : {A : Type ℓ} ⦃e : Comparable A⦄ → List A → List A
distinct [] = []
distinct (x ∷ xs) = let rest = distinct xs in if contains rest x then rest else x ∷ rest

-- What a search meets: the time at which the benches are looked at, what each source does, and the
-- time at which it is benched.
pub record World : Type 0 where
  pub now : ℕ
  pub outcome : Source → Outcome
  pub benched_at : Source → ℕ

-- what the loop of `run` does with the outcome of one source
unfoldable pub settle : World → Progress → Source → Outcome → Progress
settle w p src late = record p {
  cooldown = bench p.cooldown src.name (w.benched_at src);
  throttled = p.throttled ++ src.name ∷ [];
  timed_out = p.timed_out ++ src.name ∷ [];
}
settle w p src failed = record p {
  cooldown = bench p.cooldown src.name (w.benched_at src);
  throttled = p.throttled ++ src.name ∷ [];
}
settle w p src (found []) = p
settle w p src (found (x ∷ xs)) = record p {
  live = p.live ++ src.name ∷ [];
  products = p.products ++ x ∷ xs;
}

-- `run`
unfoldable pub run : World → Progress → List Source → Progress
run w p [] = p
run w p (src ∷ batch) = run w (settle w p src (w.outcome src)) batch

-- `if not products: run(...)`
unfoldable pub fall_back : World → List Source → Progress → Progress
fall_back w available p = elim p.products [
  | [] ↦ run w p (keep is_fallback available)
  | ◌∷◌ _ _ ↦ p
]

-- the progress before the first tier
abbrev pub nothing_yet : Dict String ℕ → Progress
nothing_yet cooldown = record {
  cooldown = cooldown;
  products = [];
  live = [];
  throttled = [];
  timed_out = [];
}

module _ (strip lower : String → String) where
  -- `dedup_key`
  unfoldable pub dedup_key : Product → String
  dedup_key p =
      str_append (lower (strip (get_or p.brand ""))) (str_append "|" (lower (strip p.title)))

  -- the loop over the tiers, with its `break`
  unfoldable pub escalate : World → List Source → ℕ → Progress → List ℕ → Progress
  escalate w real target p [] = p
  escalate w real target p (tier ∷ tiers) =
      let p' = run w p (keep (λ s. nat_beq (tier_of s) tier) real) in
      let further = escalate w real target p' tiers in
      if leb target (length (distinct (map dedup_key p'.products))) then p' else further

  -- `k not in best or p.price < best[k].price`
  unfoldable pub improves : Dict String Product → Product → Bool
  improves best p = elim (lookup best (dedup_key p)) [ none ↦ true | some q ↦ ltb p.price q.price ]

  -- the loop over the products, from the entries of `best` so far
  unfoldable pub best_from : Dict String Product → List Product → Dict String Product
  best_from best [] = best
  best_from best (p ∷ ps) =
      best_from (if improves best p then insert best (dedup_key p) p else best) ps

  -- `best`
  unfoldable pub best_offers : List Product → Dict String Product
  best_offers ps = best_from [] ps

  -- the loops of `ingest` over the sources, from the entries of `best` so far
  unfoldable pub ingest_from : Dict String Product → List (List Product) → Dict String Product
  ingest_from best [] = best
  ingest_from best (products ∷ sources) = ingest_from (best_from best products) sources

  -- `ingest`, of what each source yields
  unfoldable pub ingest : List (List Product) → List Product
  ingest sources = map (λ e. e.1) (ingest_from [] sources)

  -- `aggregate` up to the products found: the names that were benched, and the lists
  unfoldable pub gather : World → Dict String ℕ → List Source → ℕ → List String × Progress
  gather w cooldown sources target =
      let configured = keep (λ s. s.is_available) sources in
      let benched = map (λ s. s.name) (keep (λ s. is_benched cooldown w.now s.name) configured) in
      let available = keep (λ s. not (contains benched s.name)) configured in
      let real = keep (λ s. not (is_fallback s)) available in
      let tiers = sort leb (distinct (map tier_of real)) in
      (benched, fall_back w available (escalate w real target (nothing_yet cooldown) tiers))
