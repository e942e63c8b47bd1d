-- ===== src/Serve/Shopper/Remembered.antt =====
-- What the `/search` route of dealfinder/serve.py caches and stores.
use tutorial_dealfinder.Base.{
  ◌≡◌, ◌↔◌, String, Bool, true, false, not, ◌&&◌, Option, none, some, List, [], ◌∷◌, map, keep, any,
  if◌then◌else◌, arith, refl, Bool-cases, inl, inr, sym, ap, ◌∙◌,
}
use tutorial_dealfinder.Licensing.{may_embed}
use tutorial_dealfinder.Shop.Scoring.{Mode, live, check, Row}
use tutorial_dealfinder.Shop.Search.{SearchReply}
use tutorial_dealfinder.Serve.Shopper.{
  public_five_minutes, cache_control, is_embeddable, place, embeddings, remember_offers, search,
}

keep_none : (p : Row → Bool) (rows : List Row) → keep p rows ≡ [] → any p rows ≡ false
unfolding keep any
keep_none p [] h = refl
keep_none p (r ∷ rows) h = ground (arith, h, keep_none p rows)

keep_some :
    (p : Row → Bool) (rows : List Row) (x : Row) (kept : List Row)
    → keep p rows ≡ x ∷ kept
    → any p rows ≡ true
unfolding keep any
keep_some p [] x kept h = absurd (cc)
keep_some p (r ∷ rows) x kept h = elim (Bool-cases (p r)) [
  | inl e ↦ rw e refl
  | inr e ↦ rw e (keep_some p rows x kept (rw e at h))
]

any_unembeddable : (rows : List Row) → any (λ x. is_embeddable check x) rows ≡ false
unfolding any is_embeddable
any_unembeddable [] = refl
any_unembeddable (r ∷ rows) = any_unembeddable rows

abbrev pub is_empty : List Row → Bool
is_empty [] = true
is_empty (_ ∷ _) = false

module _ {V : Type 0} (e : String → V) where
  -- a row's embedding, where it may be embedded
  abbrev pub embedding_of : Mode → Row → Option V
  embedding_of mode r = if is_embeddable mode r then some (e r.offer.title) else none

  -- the titles of the rows that may be embedded, embedded
  abbrev embedded : Mode → List Row → List V
  embedded mode rows = map e (map (λ x. x.offer.title) (keep (λ x. is_embeddable mode x) rows))

  place-embedded :
      (mode : Mode) (rows : List Row)
      → place mode rows (embedded mode rows) ≡ map (embedding_of mode) rows
  unfolding place keep
  place-embedded mode [] = refl
  place-embedded mode (r ∷ rows) = elim (Bool-cases (is_embeddable mode r)) [
    | inl h ↦ rw h (ap (λ x. some (e r.offer.title) ∷ x) (place-embedded mode rows))
    | inr h ↦ rw h (ap (λ x. none ∷ x) (place-embedded mode rows))
  ]

  -- the list of the rows that the code finds embeddable, if any
  abbrev found_embeddings : Mode → List Row → Option (List (Option V))
  found_embeddings mode rows =
      if any (λ x. is_embeddable mode x) rows then some (map (embedding_of mode) rows) else none

  embeddings-found :
      (embed : List String → List V) (mode : Mode) (rows kept : List Row)
      → ((titles : List String) → embed titles ≡ map e titles)
      → keep (λ x. is_embeddable mode x) rows ≡ kept
      → embeddings embed mode rows kept ≡ found_embeddings mode rows
  unfolding embeddings
  embeddings-found embed mode rows [] h k = rw (keep_none (λ x. is_embeddable mode x) rows k) refl
  embeddings-found embed mode rows (r ∷ kept) h k =
      rw (keep_some (λ x. is_embeddable mode x) rows r kept k) (
        ap (λ x. some x)
          (ap (λ vecs. place mode rows vecs)
              (h (map (λ x. x.offer.title) (r ∷ kept))
                ∙ ap (λ l. map e (map (λ x. x.offer.title) l)) (sym k))
            ∙ place-embedded mode rows))

  remember_offers-found :
      (embed : List String → List V) (db_on : Bool) (mode : Mode) (rows : List Row)
      → ((titles : List String) → embed titles ≡ map e titles)
      → remember_offers embed db_on mode rows
        ≡ (if db_on && not (is_empty rows) then some (rows, found_embeddings mode rows) else none)
  unfolding remember_offers
  remember_offers-found embed db_on mode [] h = ground arith
  remember_offers-found embed false mode (r ∷ rows) h = refl
  remember_offers-found embed true mode (r ∷ rows) h =
      ap (λ x. some (r ∷ rows, x))
        (embeddings-found embed mode (r ∷ rows) (keep (λ x. is_embeddable mode x) (r ∷ rows)) h
          refl)

  -- what the terms allow in the live mode: the embedding of each row whose store's policy allows it
  abbrev pub licensed : List Row → List (Option V)
  licensed rows = map (λ r. if may_embed r.offer.source then some (e r.offer.title) else none) rows

  -- the list that is stored beside the rows: none in check mode, nor where no row's terms allow it
  abbrev pub stored_embeddings : Mode → List Row → Option (List (Option V))
  stored_embeddings check rows = none
  stored_embeddings live rows =
      if any (λ r. may_embed r.offer.source) rows then some (licensed rows) else none

  found-stored :
      (mode : Mode) (rows : List Row) → found_embeddings mode rows ≡ stored_embeddings mode rows
  unfolding is_embeddable
  found-stored check rows = rw (any_unembeddable rows) refl
  found-stored live rows = refl

  -- Where the embedding works title by title: the answer to a search may be cached for everyone
  -- exactly where the request is anonymous and no store failed; and the catalog is given all shown
  -- rows where there is a database and a row. In check mode it is given no embedding; in the live
  -- mode, where the policy of some row's store allows to embed, the embedding of each row whose
  -- store's policy does, and of no other.
  pub search_lem :
      {Box : Type 0} (embed : List String → List V) (db_on signed_in : Bool)
      (reply : SearchReply Box)
      → ((titles : List String) → embed titles ≡ map e titles)
      → let (header, call) = search embed db_on signed_in reply in
        ((header ≡ public_five_minutes) ↔ ((signed_in ≡ false) × (reply.degraded ≡ false)))
        × (call ≡ (
            if db_on && not (is_empty reply.results)
            then some (reply.results, stored_embeddings reply.mode reply.results)
            else none))
  unfolding search cache_control
  search_lem embed db_on signed_in reply h = (
    (λ k. ground (arith, k), λ k. ground (arith, k)),
    remember_offers-found embed db_on reply.mode reply.results h
        ∙ ap (λ x. if db_on && not (is_empty reply.results) then some (reply.results, x) else none)
            (found-stored reply.mode reply.results),
  )
