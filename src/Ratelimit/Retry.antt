-- ===== src/Ratelimit/Retry.antt =====
-- The wait that `check` of dealfinder/ratelimit.py reports with a refusal.
use tutorial_dealfinder.Base.{
  ℕ, ◌+◌, ◌-◌, ◌≤◌, ◌<◌, String, ◌≡◌, inl, inr, List, [], ◌∷◌, leb, ltb, arith, length, All, some,
  ok, string_eq, Bool-cases,
}
use tutorial_dealfinder.Compliance.Window.{SlidingWindow, allow, evict, events_of}
use tutorial_dealfinder.Compliance.Window.Eviction.{evict-fresh, length-evict-le}
use tutorial_dealfinder.Compliance.Window.Bound.{allow-limit}
use tutorial_dealfinder.Compliance.Window.Valid.{IsValid, allow-full}
use tutorial_dealfinder.Ratelimit.Admit.{wait_of, answer_of, allow-refused, HasRoom, admit_lem}
use tutorial_dealfinder.Ratelimit.Moves.{IsTable}
use tutorial_dealfinder.Ratelimit.{Limiter, admit}

-- A full deque refuses until its oldest time leaves the window, and no longer.
full_until :
    (w limit t' : ℕ) (t : ℕ) (ts : List ℕ)
    → length (t ∷ ts) ≡ limit
    → ltb (length (evict w t' (t ∷ ts))) limit ≡ leb (t + w) t'
unfolding evict
full_until w limit t' t ts h = ground (arith, length-evict-le w t' ts)

full_wait :
    (w limit now : ℕ) (ts : List ℕ)
    → All (λ t. now < t + w) ts
    → 1 ≤ limit
    → length ts ≡ limit
    → (0 < wait_of w now ts)
      × ((later : ℕ) → ltb (length (evict w later ts)) limit ≡ leb (now + wait_of w now ts) later)
full_wait w limit now [] h one n = absurd (omega arith)
full_wait w limit now (t ∷ ts) h one n =
    let e : now + (t + w - now) ≡ t + w = omega (arith, h.0) in
    (omega (arith, h.0), λ later. rw e (full_until w limit later t ts n))

-- the wait of a full deque
answer_exact :
    (s : SlidingWindow) (key : String) (last now r : ℕ)
    → last ≤ now
    → IsValid s last
    → answer_of s key now ≡ some r
    → (0 < r) × ((later : ℕ) → (allow (allow s key now).0 key later).1 ≡ leb (now + r) later)
answer_exact s key last now r le v h = elim (Bool-cases (allow s key now).1) [
  | inl allowed ↦ absurd (ground arith)
  | inr refused ↦
      let e = evict s.window now (events_of s key) in
      let (held, full) = allow-refused s key now refused in
      let (same_limit, same_window) = allow-limit s key now in
      let exact : length e ≡ s.limit =
        omega (arith, full, v.short key, length-evict-le s.window now (events_of s key)) in
      let (positive, allowed) =
        full_wait s.window s.limit now e (evict-fresh s.window now _ (v.ordered key)) v.limited
          exact in
      let r_is : wait_of s.window now e ≡ r = ground arith in
      (
        rw (← r_is) positive,
        λ later. rw (allow-full, held, same_limit, same_window, ← r_is) (allowed later),
      )
]

-- The refusal's wait is exact: where a table is valid and has room for the client, the wait `r` that
-- `check` reports from the call of `allow` on is positive, and the client's next request is allowed
-- at a later time exactly if that is `r` or more after the refusal.
pub admit_exact :
    (l : Limiter) (path : String) (w : SlidingWindow) (key : String) (last now r : ℕ) (l' : Limiter)
    → last ≤ now
    → HasRoom l.max_keys w key
    → IsTable l.max_keys last w
    → admit l path w key now ≡ ok (l', some r)
    → (0 < r) × ((later : ℕ) → (allow (allow w key now).0 key later).1 ≡ leb (now + r) later)
admit_exact l path w key last now r l' le room t h =
    let (l'', returned, ends) = admit_lem l path w key last now le room t in
    answer_exact w key last now r le t.valid (cc (returned, h))
