-- ===== src/Sources/Enabled/Launch.antt =====
-- What production may search: dealfinder/live_sources.py against the table of licences.
use tutorial_dealfinder.Base.{
  ◌&&◌, ◌==◌, all, false, ◌≡◌, ◌≢◌, ◌⊎◌, refl, inl, inr, String, Bool, true, Option, none, some,
  List, [], ◌∷◌, map, keep, contains, All, ok, raise, string_eq, get_or, arith, ap, ◌∙◌, Bool-cases,
  lookup, Result-cases,
}
use tutorial_dealfinder.Licensing.{policy_for, source_key, before_colon}
use tutorial_dealfinder.Aggregate.{Source}
use tutorial_dealfinder.Sources.{Builtins, Error, unset, is_text, is_set}
use tutorial_dealfinder.Sources.Enabled.{
  source, live_sources, may_launch, asked_names, check_names, check_launch, chosen, enabled_from,
  enabled_sources,
}

-- the Best Buy connector, in this environment
abbrev pub bestbuy_source : (String → Option String) → Source
bestbuy_source env = source "BestBuy" (is_set (env "BESTBUY_API_KEY")) (some 1) none

-- where all that is kept may launch, only what may launch counts
keep-launched :
    (p : Source → Bool) (sources : List Source)
    → All (λ s. may_launch s.name ≡ true) (keep p sources)
    → keep p sources ≡ keep p (keep (λ s. may_launch s.name) sources)
unfolding keep
keep-launched p [] all = refl
keep-launched p (s ∷ sources) all = elim (Bool-cases (p s)) [
  | inl c ↦
      let launched : All (λ s. may_launch s.name ≡ true) (s ∷ keep p sources) = (rw c at all) in
      ground (arith, c, launched.0, keep-launched p sources launched.1)
  | inr c ↦
      let rest : All (λ s. may_launch s.name ≡ true) (keep p sources) = (rw c at all) in
      ground (arith, c, keep-launched p sources rest)
]

launched_live :
    (env : String → Option String)
    → keep (λ s. may_launch s.name) (live_sources env) ≡ bestbuy_source env ∷ []
unfolding live_sources keep policy_for source_key before_colon lookup
launched_live env = refl

keep_one : (p : Source → Bool) (s : Source) → keep p (s ∷ []) ≢ [] → keep p (s ∷ []) ≡ s ∷ []
unfolding keep
keep_one p s some_kept = ground (arith, some_kept)

both : {x y : Bool} → x && y ≡ true → (x ≡ true) × (y ≡ true)
both h = ground (arith, h)

module _ (b : Builtins) where
  check_launch-All :
      (sources : List Source)
      → check_launch b sources ≡ ok tt
      → All (λ s. may_launch s.name ≡ true) sources
  unfolding check_launch
  check_launch-All [] h = tt
  check_launch-All (s ∷ sources) h = elim (Bool-cases (may_launch s.name)) [
    | inl yes_ ↦ (yes_, check_launch-All sources (rw yes_ at h))
    | inr no_ ↦ absurd (ground (arith, h, no_))
  ]

  chosen-known :
      (names : List String) (name : String) (sources : List Source)
      → contains (map (λ s. b.lower s.name) sources) (b.lower name) ≡ true
      → chosen b (name ∷ names) sources ≢ []
  unfolding contains keep
  chosen-known names name [] known = ground (arith, known)
  chosen-known names name (s ∷ sources) known = ground (
    arith,
    known,
    string_eq.same_iff (b.lower name) (b.lower s.name),
    string_eq.same_iff (b.lower s.name) (b.lower name),
    chosen-known names name sources,
  )

  check_names-known :
      (known names : List String) (name : String)
      → check_names b known (name ∷ names) ≡ ok tt
      → contains known (b.lower name) ≡ true
  unfolding check_names
  check_names-known known names name h = ground (arith, h)

  only_bestbuy :
      (env : String → Option String) (name : String) (names : List String)
      → check_names b (map (λ s. b.lower s.name) (live_sources env)) (name ∷ names) ≡ ok tt
      → check_launch b (chosen b (name ∷ names) (live_sources env)) ≡ ok tt
      → chosen b (name ∷ names) (live_sources env) ≡ bestbuy_source env ∷ []
  only_bestbuy env name names known launched =
      let wanted : Source → Bool = λ s. contains (map b.lower (name ∷ names)) (b.lower s.name) in
      let same : keep wanted (live_sources env) ≡ keep wanted (bestbuy_source env ∷ []) =
        keep-launched wanted (live_sources env) (check_launch-All _ launched)
        ∙ ap (keep wanted) (launched_live env) in
      let found =
        chosen-known names name (live_sources env) (check_names-known _ names name known) in
      same ∙ keep_one wanted (bestbuy_source env) (λ e. found (same ∙ e))

  enabled_from_lem :
      (env : String → Option String) (asked : List String)
      → (enabled_from b (live_sources env) true asked ≡ ok (bestbuy_source env ∷ []))
        ⊎ ((e : Error) × (enabled_from b (live_sources env) true asked ≡ raise e))
  unfolding enabled_from
  enabled_from_lem env [] = inr (unset, refl)
  enabled_from_lem env (name ∷ names) =
      elim (Result-cases
        (check_names b (map (λ s. b.lower s.name) (live_sources env)) (name ∷ names))) [
          | inr (e, bad) ↦ inr (e, rw bad refl)
          | inl (done, known) ↦
              elim (Result-cases (check_launch b (chosen b (name ∷ names) (live_sources env)))) [
                | inr (e, bad) ↦ inr (e, rw (known, bad) refl)
                | inl (launched, all) ↦
                    inl (rw (known, all, only_bestbuy env name names known all) refl)
              ]
        ]

  -- a spelling of "BestBuy"
  abbrev pub is_bestbuy : String → Bool
  is_bestbuy name = b.lower name == b.lower "BestBuy"

  -- `lower` keeps Best Buy's name from the other stores'
  abbrev pub IsApart : Type 0
  IsApart =
      All (λ name. (b.lower "BestBuy" == b.lower name) ≡ false)
        ("eBay" ∷ "RapidAPI" ∷ "Amazon" ∷ "Apify" ∷ "Shopify" ∷ "Firecrawl" ∷ "iTunes" ∷ [])

  lower_is : (name : String) → is_bestbuy name ≡ true → b.lower name ≡ b.lower "BestBuy"
  lower_is name h = (string_eq.same_iff (b.lower name) (b.lower "BestBuy")).0 h

  check_names-ok :
      (known names : List String)
      → contains known (b.lower "BestBuy") ≡ true
      → (b.lower "BestBuy" == b.lower "eBay") ≡ false
      → all is_bestbuy names ≡ true
      → check_names b known names ≡ ok tt
  unfolding check_names all
  check_names-ok known [] here apart h = refl
  check_names-ok known (name ∷ names) here apart h =
      let (this, others) = both h in
      rw (lower_is name this, apart, here) (check_names-ok known names here apart others)

  names-other :
      (names : List String) (x : String)
      → (b.lower "BestBuy" == x) ≡ false
      → all is_bestbuy names ≡ true
      → contains (map b.lower names) x ≡ false
  unfolding contains all
  names-other [] x apart h = refl
  names-other (name ∷ names) x apart h =
      let (this, others) = both h in
      rw (lower_is name this) (
        ground (
          arith,
          names-other names x apart others,
          apart,
          string_eq.same_iff (b.lower "BestBuy") x,
          string_eq.same_iff x (b.lower "BestBuy"),
        ))

  names-bestbuy :
      (name : String) (names : List String)
      → all is_bestbuy (name ∷ names) ≡ true
      → contains (map b.lower (name ∷ names)) (b.lower "BestBuy") ≡ true
  unfolding contains all
  names-bestbuy name names h =
      let (this, others) = both h in
      rw (lower_is name this)
        (ground (arith, string_eq.same_iff (b.lower "BestBuy") (b.lower "BestBuy")))

  chosen-bestbuy :
      (env : String → Option String) (name : String) (names : List String)
      → IsApart
      → all is_bestbuy (name ∷ names) ≡ true
      → chosen b (name ∷ names) (live_sources env) ≡ bestbuy_source env ∷ []
  unfolding live_sources keep
  chosen-bestbuy env name names apart h =
      let none_of =
        λ (x : String) (e : (b.lower "BestBuy" == x) ≡ false). names-other (name ∷ names) x e h in
      rw
        (
          none_of (b.lower "RapidAPI") apart.1.0,
          names-bestbuy name names h,
          none_of (b.lower "Amazon") apart.1.1.0,
          none_of (b.lower "Apify") apart.1.1.1.0,
          none_of (b.lower "Shopify") apart.1.1.1.1.0,
          none_of (b.lower "Firecrawl") apart.1.1.1.1.1.0,
          none_of (b.lower "iTunes") apart.1.1.1.1.1.1.0,
        )
        refl

  -- Best Buy alone is launched, whatever way it is spelled
  check_launch-bestbuy :
      (env : String → Option String) → check_launch b (bestbuy_source env ∷ []) ≡ ok tt
  unfolding check_launch policy_for source_key before_colon lookup
  check_launch-bestbuy env = refl

  check_names-bestbuy :
      (env : String → Option String) (names : List String)
      → IsApart
      → all is_bestbuy names ≡ true
      → check_names b (map (λ s. b.lower s.name) (live_sources env)) names ≡ ok tt
  unfolding live_sources contains
  check_names-bestbuy env names apart h =
      check_names-ok _ names
        (ground (arith, string_eq.same_iff (b.lower "BestBuy") (b.lower "BestBuy"))) apart.0 h

  enabled_from-bestbuy :
      (env : String → Option String) (name : String) (names : List String)
      → IsApart
      → all is_bestbuy (name ∷ names) ≡ true
      → enabled_from b (live_sources env) true (name ∷ names) ≡ ok (bestbuy_source env ∷ [])
  unfolding enabled_from
  enabled_from-bestbuy env name names apart h =
      rw
        (
          check_names-bestbuy env (name ∷ names) apart h,
          chosen-bestbuy env name names apart h,
          check_launch-bestbuy env,
        )
        refl

  enabled_from_why :
      (env : String → Option String) (asked : List String)
      → IsApart
      → (enabled_from b (live_sources env) true asked ≡ ok (bestbuy_source env ∷ []))
        ⊎ ((e : Error) × (enabled_from b (live_sources env) true asked ≡ raise e)
            × ((asked ≡ []) ⊎ (all is_bestbuy asked ≡ false)))
  unfolding enabled_from
  enabled_from_why env [] apart = inr (unset, refl, inl refl)
  enabled_from_why env (name ∷ names) apart = elim (Bool-cases (all is_bestbuy (name ∷ names))) [
    | inl h ↦ inl (enabled_from-bestbuy env name names apart h)
    | inr h ↦ elim (enabled_from_lem env (name ∷ names)) [
      | inl given ↦ inl given
      | inr (e, raised) ↦ inr (e, raised, inr h)
    ]
  ]

  -- In production, `enabled_sources` gives the Best Buy connector alone, or raises, whatever sources
  -- are asked for and whatever else is configured; and it raises only when no source is asked for or
  -- one that is not Best Buy in some spelling. `lower` is taken to keep "BestBuy" apart from the
  -- other stores' names.
  pub enabled_sources_lem :
      (env : String → Option String) (names : Option String)
      → IsApart
      → is_text (env "DEALFINDER_ENV") "production" ≡ true
      → (enabled_sources b env names ≡ ok (bestbuy_source env ∷ []))
        ⊎ ((e : Error) × (enabled_sources b env names ≡ raise e)
            × (let asked = asked_names b (get_or names (get_or (env "DEALFINDER_SOURCES") "")) in
                (asked ≡ []) ⊎ (all is_bestbuy asked ≡ false)))
  unfolding enabled_sources
  enabled_sources_lem env names apart production = rw production (
      enabled_from_why env (asked_names b (get_or names (get_or (env "DEALFINDER_SOURCES") "")))
        apart)
