-- ===== src/Serve/Edge/Guarded.antt =====
-- What passes the middlewares of dealfinder/serve.py.
use tutorial_dealfinder.Base.{
  ℕ, ◌+◌, ◌*◌, ◌≤◌, ◌≡◌, ◌≢◌, String, Bool, true, false, ◌==◌, Option, none, some, Result, ok,
  contains, string_eq, get_or, arith, refl, sym, ap, ◌||◌, Bool-cases, Result-cases, inl, inr,
}
use tutorial_dealfinder.Ratelimit.{Limiter, Error, check}
use tutorial_dealfinder.Serve.Edge.{
  edge_exempt, Request, Answer, forbidden, slow_down, edge_guard, retry_seconds, limited,
  rate_limit, handle,
}

-- the header asks for the wait and less than a second more
retry_seconds_lem :
    (wait : ℕ)
    → (wait ≤ 1000 * retry_seconds wait)
      × (1 ≤ retry_seconds wait)
      × (1000 * retry_seconds wait ≤ wait + 1000)
unfolding retry_seconds
retry_seconds_lem wait = (omega arith, omega arith, omega arith)

ok_inj : (a b : Limiter × Answer) → ◌≡◌ {A = Result Error (Limiter × Answer)} (ok a) (ok b) → a ≡ b
ok_inj a b h = cc

limited-slow :
    (x : Limiter × Option ℕ) (l : Limiter) (r : ℕ)
    → limited x ≡ (l, slow_down r)
    → (wait : ℕ) × (x.1 ≡ some wait) × (r ≡ retry_seconds wait)
unfolding limited
limited-slow (l', none) l r h = absurd (cc)
limited-slow (l', some wait) l r h = (wait, refl, cc)

not_same : (s t : String) → s ≢ t → (s == t) ≡ false
not_same s t h = elim (Bool-cases (s == t)) [
  | inl e ↦ absurd (h ((string_eq.same_iff s t).0 e))
  | inr e ↦ e
]

header_differs :
    (o : Option String) (secret : String)
    → secret ≢ ""
    → o ≢ some secret
    → (get_or o "" == secret) ≡ false
header_differs none secret set h = not_same "" secret (λ e. set (sym e))
header_differs (some got) secret set h = not_same got secret (λ e. h (ap (λ x. some x) e))

edge_guard-secret :
    (secret : String) (request : Request)
    → secret ≢ ""
    → edge_guard (some secret) request
      ≡ (contains edge_exempt request.path || get_or request.edge_header "" == secret)
unfolding edge_guard
edge_guard-secret secret request set = ground (arith, not_same secret "" set)

-- a limiter that asks a client to slow down
abbrev pub Slows : Limiter → Request → ℕ → ℕ → Type 0
Slows l request now r =
    (x : Limiter × Option ℕ) × (wait : ℕ) × (check l request.path request.client now ≡ ok x)
    × (x.1 ≡ some wait)
    × (1 ≤ r)
    × (wait ≤ 1000 * r)
    × (1000 * r ≤ wait + 1000)

rate_limit-Slows :
    (enabled : Bool) (l : Limiter) (request : Request) (now : ℕ) (l' : Limiter) (r : ℕ)
    → rate_limit enabled l request now ≡ ok (l', slow_down r)
    → Slows l request now r
unfolding rate_limit
rate_limit-Slows false l request now l' r h = absurd (cc)
rate_limit-Slows true l request now l' r h =
    elim (Result-cases (check l request.path request.client now)) [
      | inr (e, f) ↦ absurd (ground (arith, rw (f, rate_limit) at h))
      | inl (x, f) ↦
          let (wait, some_wait, same) =
            limited-slow x l' r (ok_inj _ _ (rw (f, rate_limit) at h)) in
          let (least, positive, most) = retry_seconds_lem wait in
          (
            x,
            wait,
            f,
            some_wait,
            omega (arith, same, positive),
            omega (arith, same, least),
            omega (arith, same, most),
          )
    ]

-- With a shared secret set, a request without it to a path that is not a health check is refused, and
-- the limiter counts nothing. A health check is never refused by the guard. Where a request is told
-- to slow down, the limiter said so, and the header's seconds are at least the limiter's wait and at
-- most a second more, and never 0.
pub handle_lem :
    (secret : String) (enabled : Bool) (l : Limiter) (request : Request) (now : ℕ)
    → secret ≢ ""
    → (contains edge_exempt request.path ≡ false
        → request.edge_header ≢ some secret
        → handle (some secret) enabled l request now ≡ ok (l, forbidden))
      × (contains edge_exempt request.path ≡ true
          → handle (some secret) enabled l request now ≡ rate_limit enabled l request now)
      × ((l' : Limiter) (r : ℕ)
          → handle (some secret) enabled l request now ≡ ok (l', slow_down r)
          → Slows l request now r)
unfolding handle
handle_lem secret enabled l request now set =
    let guard = edge_guard-secret secret request set in
    (
      λ path header.
          ground (arith, guard, path, header_differs request.edge_header secret set header),
      λ path. ground (arith, guard, path),
      λ l' r h. elim (Bool-cases (edge_guard (some secret) request)) [
        | inl e ↦ rate_limit-Slows enabled l request now l' r (rw (e, handle) at h)
        | inr e ↦ absurd (ground (arith, rw (e, handle) at h))
      ],
    )
