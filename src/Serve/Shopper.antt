-- ===== src/Serve/Shopper.antt =====
-- The `/search` route of dealfinder/serve.py: what it lets a cache keep, and what it leaves in the
-- catalog for the watchlist. The embedding and the upsert are parameters.
pub mod Remembered
use tutorial_dealfinder.Base.{
  ℕ, String, Bool, true, false, not, ◌&&◌, ◌||◌, Option, none, some, List, [], ◌∷◌, map, keep,
  if◌then◌else◌,
}
use tutorial_dealfinder.Licensing.{may_embed}
use tutorial_dealfinder.Shop.Scoring.{Mode, live, check, Row}
use tutorial_dealfinder.Shop.Search.{SearchReply}

pub data CacheControl : Type 0 where
  private_no_store no_store public_five_minutes : CacheControl

-- the `Cache-Control` header, of whether the request has an `Authorization` header
unfoldable pub cache_control : Bool → Bool → CacheControl
cache_control signed_in degraded =
    if signed_in then private_no_store else if degraded then no_store else public_five_minutes

-- the rows whose titles may be embedded; check mode embeds nothing
unfoldable pub is_embeddable : Mode → Row → Bool
is_embeddable check r = false
is_embeddable live r = may_embed r.offer.source

module _ {V : Type 0} where
  -- the next vector, and those after it
  abbrev pub first_of : List V → Option V
  first_of [] = none
  first_of (v ∷ vecs) = some v

  abbrev pub rest_of : List V → List V
  rest_of [] = []
  rest_of (v ∷ vecs) = vecs

  -- `for i, v in zip(embeddable, vecs): embs[i] = v`, over the rows in their order
  unfoldable pub place : Mode → List Row → List V → List (Option V)
  place mode [] vecs = []
  place mode (r ∷ rows) vecs =
      (if is_embeddable mode r then first_of vecs else none)
      ∷ place mode rows (if is_embeddable mode r then rest_of vecs else vecs)

  -- `embs`, of the rows that may be embedded
  unfoldable pub embeddings :
      (List String → List V) → Mode → List Row → List Row → Option (List (Option V))
  embeddings embed mode rows [] = none
  embeddings embed mode rows (r ∷ embeddable) =
      some (place mode rows (embed (map (λ x. x.offer.title) (r ∷ embeddable))))

  -- `_remember_offers`: what `pgstore.upsert` is called with, if it is
  unfoldable pub remember_offers :
      (List String → List V) → Bool → Mode → List Row → Option (List Row × Option (List (Option V)))
  remember_offers embed db_on mode [] = none
  remember_offers embed db_on mode (r ∷ rows) =
      if not db_on
      then none
      else some
          (r ∷ rows, embeddings embed mode (r ∷ rows) (keep (λ x. is_embeddable mode x) (r ∷ rows)))

  -- `search`, of the reply of `shop_search`: the header, and what is stored after the answer
  unfoldable pub search :
      {Box : Type 0}
      → (List String → List V)
      → Bool
      → Bool
      → SearchReply Box
      → CacheControl × Option (List Row × Option (List (Option V)))
  search embed db_on signed_in reply =
      (cache_control signed_in reply.degraded, remember_offers embed db_on reply.mode reply.results)
