-- ===== src/Serve/Edge.antt =====
-- The two middlewares of dealfinder/serve.py: the edge guard runs first, then the rate limit of
-- dealfinder/ratelimit.py. A time is a millisecond, as for the limiter.
pub mod Guarded
use tutorial_dealfinder.Base.{
  ℕ, ◌+◌, ◌*◌, ◌/◌, max, String, Bool, true, false, not, ◌&&◌, ◌||◌, ◌==◌, Option, none, some, List,
  [], ◌∷◌, Result, ok, raise, contains, string_eq, get_or, if◌then◌else◌,
}
use tutorial_dealfinder.Ratelimit.{Limiter, Error, check}

-- `_EDGE_EXEMPT`
abbrev pub edge_exempt : List String
edge_exempt = "/healthz" ∷ "/health" ∷ "/readyz" ∷ []

-- What the middlewares read of a request; the key is `client_key`'s.
pub record Request : Type 0 where
  pub path : String
  pub client : String
  pub edge_header : Option String

pub data Answer : Type 0 where
  -- 403, and 429 with the `Retry-After` header
  forbidden served : Answer
  slow_down : ℕ → Answer

-- `edge_guard`: whether the request goes on, of the environment's EDGE_SHARED_SECRET
unfoldable pub edge_guard : Option String → Request → Bool
edge_guard none request = true
edge_guard (some secret) request =
    if not (secret == "") && not (contains edge_exempt request.path)
    then get_or request.edge_header "" == secret
    else true

-- `max(1, math.ceil(wait))`, of a wait in milliseconds
unfoldable pub retry_seconds : ℕ → ℕ
retry_seconds wait = max 1 ((wait + 999) / 1000)

-- the answer to what the limiter says
unfoldable pub limited : Limiter × Option ℕ → Limiter × Answer
limited (l, none) = (l, served)
limited (l, some wait) = (l, slow_down (retry_seconds wait))

-- `rate_limit`; served stands for the route's own answer
unfoldable pub rate_limit : Bool → Limiter → Request → ℕ → Result Error (Limiter × Answer)
rate_limit enabled l request now =
    if enabled
    then (elim (check l request.path request.client now) [
      | ok x ↦ ok (limited x)
      | raise e ↦ raise e
    ])
    else ok (l, served)

-- a request through both
unfoldable pub handle :
    Option String → Bool → Limiter → Request → ℕ → Result Error (Limiter × Answer)
handle secret enabled l request now =
    if edge_guard secret request then rate_limit enabled l request now else ok (l, forbidden)
