-- ===== src/Serve/Stream/Events.antt =====
-- What the events of `_stream_search` of dealfinder/serve.py say together.
use mathlib.Core.List.{Mem, append-nil}
use tutorial_dealfinder.Base.{
  Bool, Option, false, ℕ, ◌≡◌, String, true, none, some, List, [], ◌∷◌, ◌++◌, map, keep, Dict,
  IsDict, lookup, insert, length, string_eq, All, All-append, All-kept, refl, sym, ap, ◌∙◌, subst,
  arith, inl, inr, ◌⊎◌, if◌then◌else◌,
}
use tutorial_dealfinder.Licensing.{may_comingle, may_verdict}
use tutorial_dealfinder.Aggregate.{Product, dedup_key, improves, best_from, best_offers}
use tutorial_dealfinder.Aggregate.Cheapest.{Offers, best_offers_lem}
use tutorial_dealfinder.Aggregate.Undercut.{best_offers-IsDict}
use tutorial_dealfinder.Shop.Scoring.{Mode, live, check}
use tutorial_dealfinder.Shop.Search.{attribute}
use tutorial_dealfinder.Serve.Stream.{
  StreamSource, Landed, skipped, failed, landed, Done, Event, source_error, results, done, land,
  land_found, name_of, mixable, batch_events, stream_sources, median_of_rated, summary,
  stream_search,
}

Landed-cases :
    (l : Landed) → (l ≡ skipped) ⊎ ((l ≡ failed) ⊎ ((found : List Product) × (l ≡ landed found)))
Landed-cases skipped = inl refl
Landed-cases failed = inr (inl refl)
Landed-cases (landed found) = inr (inr (found, refl))

length-map : {A B : Type 0} (f : A → B) (xs : List A) → length (map f xs) ≡ length xs
length-map f [] = refl
length-map f (x ∷ xs) = omega (arith, length-map f xs)

append_assoc : (xs ys zs : List Product) → (xs ++ ys) ++ zs ≡ xs ++ (ys ++ zs)
append_assoc [] ys zs = refl
append_assoc (x ∷ xs) ys zs = ap (λ l. x ∷ l) (append_assoc xs ys zs)

-- the rows that an event shows
abbrev pub rows_of : Event → List Product
rows_of (source_error name) = []
rows_of (results name rows) = rows
rows_of (done d) = []

-- all rows that are shown, in their order
unfoldable pub rows_shown : List Event → List Product
rows_shown [] = []
rows_shown (e ∷ events) = rows_of e ++ rows_shown events

rows_shown-append : (xs ys : List Event) → rows_shown (xs ++ ys) ≡ rows_shown xs ++ rows_shown ys
unfolding rows_shown
rows_shown-append [] ys = refl
rows_shown-append (e ∷ xs) ys =
    ap (λ l. rows_of e ++ l) (rows_shown-append xs ys)
    ∙ sym (append_assoc (rows_of e) (rows_shown xs) (rows_shown ys))

rows_shown-batch :
    (name : String) (batch : List Product) → rows_shown (batch_events name batch) ≡ batch
unfolding rows_shown batch_events
rows_shown-batch name [] = refl
rows_shown-batch name (p ∷ batch) = append-nil (p ∷ batch)

-- what a source finds, where it says that it is available and its search does not raise
abbrev pub found_by : Option Bool → Option (Option (List Product)) → List Product
found_by (some true) (some (some found)) = found
found_by (some true) (some none) = []
found_by (some true) none = []
found_by (some false) search = []
found_by none search = []

-- what all sources find of stores that may stand beside others
abbrev pub offered : List StreamSource → List Product
offered [] = []
offered (src ∷ sources) =
    keep (λ p. may_comingle (some p.source)) (found_by src.available src.search) ++ offered sources

-- the `try` block comes to what the source finds
found_of : Landed → List Product
found_of skipped = []
found_of failed = []
found_of (landed found) = found

land-found_by : (src : StreamSource) → found_of (land src) ≡ found_by src.available src.search
unfolding found_of land land_found
land-found_by src = by_answers src.available src.search
  where
    by_answers :
        (available : Option Bool) (search : Option (Option (List Product)))
        → found_of (elim available [
          | none ↦ failed
          | some false ↦ skipped
          | some true ↦ land_found search
        ])
          ≡ found_by available search
    by_answers none search = refl
    by_answers (some false) search = refl
    by_answers (some true) none = refl
    by_answers (some true) (some none) = refl
    by_answers (some true) (some (some found)) = refl

land-offered :
    (src : StreamSource) (l : Landed)
    → land src ≡ l
    → mixable (found_of l)
      ≡ keep (λ p. may_comingle (some p.source)) (found_by src.available src.search)
land-offered src l e = ap mixable (ap found_of (sym e) ∙ land-found_by src)

-- an event before the last: of a source, and with rows only that may stand beside other stores'
abbrev pub IsShown : Event → Type 0
IsShown (source_error name) = Unit
IsShown (results name rows) = All (λ p. may_comingle (some p.source) ≡ true) rows
IsShown (done d) = ⊥

batch_events-IsShown :
    (name : String) (batch : List Product)
    → All (λ p. may_comingle (some p.source) ≡ true) batch
    → All IsShown (batch_events name batch)
unfolding batch_events
batch_events-IsShown name [] h = tt
batch_events-IsShown name (p ∷ batch) h = (h, tt)

module _ (strip lower : String → String) where
  best_from-append :
      (best : Dict String Product) (ps qs : List Product)
      → best_from strip lower best (ps ++ qs)
        ≡ best_from strip lower (best_from strip lower best ps) qs
  unfolding best_from
  best_from-append best [] qs = refl
  best_from-append best (p ∷ ps) qs =
      best_from-append
        (if improves strip lower best p then insert best (dedup_key strip lower p) p else best) ps
        qs

  -- the events show what was offered, and the table at the end is the best of it
  abbrev Streams : Dict String Product → List StreamSource → Type 0
  Streams seen sources =
      let (seen', events) = stream_sources strip lower seen sources in
      All IsShown events
      × (rows_shown events ≡ offered sources)
      × (seen' ≡ best_from strip lower seen (offered sources))

  stream_sources_lem :
      (seen : Dict String Product) (sources : List StreamSource) → Streams seen sources
  unfolding stream_sources rows_shown best_from found_of keep
  stream_sources_lem seen [] = (tt, refl, refl)
  stream_sources_lem seen (src ∷ sources) = elim (Landed-cases (land src)) [
    | inl e ↦ rw (← land-offered src skipped e, e, stream_sources) (stream_sources_lem seen sources)
    | inr (inl e) ↦
        let (all, rows, best) = stream_sources_lem seen sources in
        rw (← land-offered src failed e, e, stream_sources) ((tt, all), rows, best)
    | inr (inr (found, e)) ↦
        let batch = mixable found in
        let after = best_from strip lower seen batch in
        let (all, rows, best) = stream_sources_lem after sources in
        let rest = (stream_sources strip lower after sources).1 in
        rw (← land-offered src (landed found) e, e, stream_sources)
          (
            All-append IsShown (batch_events (name_of src) batch) rest
                (batch_events-IsShown (name_of src) batch
                  (All-kept (λ p. may_comingle (some p.source)) found))
                all,
            rows_shown-append (batch_events (name_of src) batch) rest
                ∙ ap (λ l. l ++ rows_shown rest) (rows_shown-batch (name_of src) batch)
                ∙ ap (λ l. batch ++ l) rows,
            best ∙ sym (best_from-append seen batch (offered sources)),
          )
  ]

  -- the table of the rows: one offer under each key, one of the rows and no dearer than any of them
  abbrev pub IsBest : List Product → Dict String Product → Type 0
  IsBest rows best =
      IsDict best
      × All (Offers strip lower best) rows
      × ((k : String) (q : Product)
          → lookup best k ≡ some q
          → (dedup_key strip lower q ≡ k) × Mem q rows)

  -- the `done` event is that of the table
  abbrev pub Sums : Mode → (List ℕ → ℕ) → Dict String Product → Done → Type 0
  Sums mode median best d =
      let items = map (λ x. x.1) best in
      (d.count ≡ length best)
      × (mode ≡ check → d.median_price ≡ none)
      × (mode ≡ live
          → d.median_price
            ≡ some (
                median_of_rated strip lower median
                  (map (λ p. p.price) (keep (λ p. may_verdict (some p.source)) items))))
      × (d.attribution ≡ attribute [] (map (λ p. some p.source) items))

  summary-Sums :
      (mode : Mode) (median : List ℕ → ℕ) (query : String) (best : Dict String Product)
      → Sums mode median best (summary strip lower mode median query best)
  unfolding summary
  summary-Sums mode median query best =
      (length-map (λ x. x.1) best, λ h. rw h refl, λ h. rw h refl, refl)

  -- The stream is events of sources and then one `done` event. The rows shown are exactly those that
  -- the sources which are available and do not raise found, in their order, less those of stores that
  -- may not stand beside others. The `done` event counts the offers of the table of the rows shown,
  -- which has under each key that a row has one of the rows of that key, and none of them is cheaper;
  -- its attribution is that of these offers, and its median, which it has in the live mode and not in
  -- check mode, is that of the prices of those offers that may be rated.
  pub stream_search-IsShown :
      (mode : Mode) (median : List ℕ → ℕ) (query : String) (sources : List StreamSource)
      → (events : List Event) × (d : Done) × (best : Dict String Product) × (stream_search strip
            lower mode median query sources
          ≡ events ++ done d ∷ [])
        × All IsShown events
        × (rows_shown events ≡ offered sources)
        × IsBest (rows_shown events) best
        × Sums mode median best d
  unfolding stream_search best_offers
  stream_search-IsShown mode median query sources =
      let (seen, events) = stream_sources strip lower [] sources in
      let (all, rows, best) = stream_sources_lem [] sources in
      let shown = rows_shown events in
      let same : best_offers strip lower shown ≡ seen =
        ap (best_from strip lower []) rows ∙ sym best in
      let (offers, stored) = best_offers_lem strip lower shown in
      (
        events,
        summary strip lower mode median query seen,
        seen,
        refl,
        all,
        rows,
        subst (IsBest shown) same (best_offers-IsDict strip lower shown, offers, stored),
        summary-Sums mode median query seen,
      )
