-- ===== src/Compliance/Window.antt =====
-- `SlidingWindowRateLimiter` of dealfinder/compliance.py. A time is a number of clock ticks. The
-- source compares `t <= now - window`; `-` on ℕ would stop at 0, so this is written
-- `t + window ≤ now`.
pub mod Eviction
pub mod Bound
pub mod Valid
use tutorial_dealfinder.Base.{
  ℕ, ◌+◌, ◌-◌, String, Bool, true, false, Option, none, some, List, [], ◌∷◌, ◌++◌, leb, ltb, not,
  if◌then◌else◌, length, count, Dict, lookup, insert, get_or, string_eq,
}

pub record SlidingWindow : Type 0 where
  pub limit : ℕ
  pub window : ℕ
  -- each user's deque of request times, oldest first
  pub events : Dict String (List ℕ)

-- `__init__`: `none` stands for the `ValueError`
unfoldable pub init : ℕ → ℕ → Option SlidingWindow
init limit window =
    if ltb limit 1 then none else some (record { limit = limit; window = window; events = [] })

-- `events[0] <= cutoff`
abbrev pub expired : ℕ → ℕ → ℕ → Bool
expired window now t = leb (t + window) now

-- `while events and events[0] <= cutoff: events.popleft()`
unfoldable pub evict : ℕ → ℕ → List ℕ → List ℕ
evict window now [] = []
evict window now (t ∷ ts) =
    let rest = evict window now ts in if expired window now t then rest else t ∷ ts

-- `self._events[user_id]`, of a `defaultdict(deque)`
abbrev pub events_of : SlidingWindow → String → List ℕ
events_of s user = get_or (lookup s.events user) []

unfoldable pub allow : SlidingWindow → String → ℕ → SlidingWindow × Bool
allow s user now =
    let events = evict s.window now (events_of s user) in
    if leb s.limit (length events)
    then (record s { events = insert s.events user events }, false)
    else (record s { events = insert s.events user (events ++ now ∷ []) }, true)

-- `self._events[user_id]` gives an absent user an empty deque, so the table changes here too
unfoldable pub remaining : SlidingWindow → String → ℕ → SlidingWindow × ℕ
remaining s user now =
    let events = events_of s user in
    let active = count (λ t. not (expired s.window now t)) events in
    (record s { events = insert s.events user events }, s.limit - active)
