-- ===== src/Ratelimit.antt =====
-- dealfinder/ratelimit.py: the per-path limiter over `SlidingWindowRateLimiter`. A time is a whole
-- number of milliseconds. The clock is read once in a call, so the time is an argument.
pub mod Shrink
pub mod Moves
pub mod Admit
pub mod Check
pub mod Retry
mod Tests
use Prim.Native.String.{◌++◌ as str_append, compare}
use text.Mathlib.Text.{is_le}
use tutorial_dealfinder.Base.{
  ℕ, zero, suc, ◌+◌, ◌-◌, ◌*◌, ◌/◌, String, Bool, true, false, ◌&&◌, ◌||◌, not, Option, none, some,
  List, [], ◌∷◌, map, leb, ltb, nat_beq, if◌then◌else◌, length, keep, take, Dict, lookup, insert,
  has, drop_keys, sort, Result, ok, raise, ◌>>=◌, ◌>>◌, or_raise, string_eq,
}
use tutorial_dealfinder.Compliance.Window.{SlidingWindow, init, allow}

pub data Error : Type 0 where
  key_error index_error : Error

-- `SHRINK_EVERY_S`
abbrev pub shrink_every : ℕ
shrink_every = 1000

-- `LIMITS`: the requests and the window of each limited path
abbrev pub limits : Dict String (ℕ × ℕ)
limits =
    ("/ask", (5, 60000))
    ∷ ("/ask_agentic", (5, 60000))
    ∷ ("/review", (5, 60000))
    ∷ ("/search", (30, 10000))
    ∷ ("/search/stream", (30, 10000))
    ∷ ("/check", (30, 10000))
    ∷ ("/ranked", (30, 10000))
    ∷ ("/semantic", (30, 10000))
    ∷ []

pub record Limiter : Type 0 where
  pub windows : Dict String SlidingWindow
  pub max_keys : ℕ
  pub last_shrink : Dict String ℕ

windows_of : Dict String (ℕ × ℕ) → Option (Dict String SlidingWindow)
windows_of [] = some []
windows_of ((path, (n, w)) ∷ rest) = elim (init n w) [
  | none ↦ none
  | some window ↦ elim (windows_of rest) [ none ↦ none | some ws ↦ some ((path, window) ∷ ws) ]
]

-- `__init__`: `none` stands for the `ValueError` of a limit below one
unfoldable pub create : Dict String (ℕ × ℕ) → ℕ → Option Limiter
unfolding windows_of
create ls max_keys = elim (windows_of ls) [
  | none ↦ none
  | some ws ↦ some (record { windows = ws; max_keys = max_keys; last_shrink = [] })
]

-- `__len__`
unfoldable pub size : Dict String SlidingWindow → ℕ
size [] = 0
size ((_, w) ∷ ws) = length w.events + size ws

-- `ev[-1]`
unfoldable pub last? : List ℕ → Option ℕ
last? [] = none
last? (t ∷ []) = some t
last? (_ ∷ t ∷ ts) = last? (t ∷ ts)

-- `not ev or ev[-1] <= now - window.window`
unfoldable pub is_idle : ℕ → ℕ → List ℕ → Bool
is_idle w now ev = elim (last? ev) [ none ↦ true | some t ↦ leb (t + w) now ]

unfoldable pub idle_keys : SlidingWindow → ℕ → List String
idle_keys window now = map (λ e. e.0) (keep (λ e. is_idle window.window now e.1) window.events)

-- the order of the tuples `(ev[-1], k)`
unfoldable pub tuple_le : ℕ × String → ℕ × String → Bool
tuple_le a b = ltb a.0 b.0 || (nat_beq a.0 b.0 && is_le (compare a.1 b.1))

-- `((ev[-1], k) for k, ev in window._events.items() if len(ev) < window.limit)`
unfoldable pub open_keys : ℕ → Dict String (List ℕ) → Result Error (List (ℕ × String))
open_keys limit [] = ok []
open_keys limit ((k, ev) ∷ d) =
    let rest = open_keys limit d in
    if ltb (length ev) limit
    then (do t ← or_raise (last? ev) index_error; others ← rest; ok ((t, k) ∷ others))
    else rest

-- `int(self.max_keys * 0.9)`
abbrev pub room_after : ℕ → ℕ
room_after max_keys = max_keys * 9 / 10

unfoldable pub shrink : ℕ → SlidingWindow → ℕ → Result Error SlidingWindow
shrink max_keys window now =
    let kept = drop_keys (idle_keys window now) window.events in
    let excess = length kept - room_after max_keys in
    if leb (length kept) (room_after max_keys) then ok (record window { events = kept }) else (do
      others ← open_keys window.limit kept
      ok (record window {
        events = drop_keys (map (λ p. p.1) (take excess (sort tuple_le others))) kept;
      }))

-- `now - self._last_shrink.get(path, float("-inf")) >= SHRINK_EVERY_S`
unfoldable pub shrink_due : Dict String ℕ → String → ℕ → Bool
shrink_due last_shrink path now = elim (lookup last_shrink path) [
  | none ↦ true
  | some t ↦ leb (t + shrink_every) now
]

-- The window is the object that `_windows` holds: the caller writes it back.
unfoldable pub maybe_shrink :
    Limiter → String → SlidingWindow → ℕ → Result Error (Limiter × SlidingWindow)
maybe_shrink l path window now =
    if shrink_due l.last_shrink path now
    then (do
      shrunk ← shrink l.max_keys window now
      ok (
        record l {
          windows = insert l.windows path shrunk;
          last_shrink = insert l.last_shrink path now;
        },
        shrunk,
      ))
    else ok (l, window)

-- f"{path}|{client}"
unfoldable pub client_entry : String → String → String
client_entry path client = str_append path (str_append "|" client)

-- `ev[0]`
unfoldable pub first : List ℕ → Result Error ℕ
first [] = raise index_error
first (t ∷ _) = ok t

-- `events[key][0] + window.window - now`
unfoldable pub retry_after : SlidingWindow → String → ℕ → Result Error ℕ
retry_after window key now = do
  ev ← or_raise (lookup window.events key) key_error
  t ← first ev
  ok (t + window.window - now)

-- `if len(events) > self.max_keys: self._maybe_shrink(…)`
unfoldable pub shrink_above :
    Limiter → String → SlidingWindow → ℕ → Result Error (Limiter × SlidingWindow)
shrink_above l path window now =
    if ltb l.max_keys (length window.events) then maybe_shrink l path window now else ok (l, window)

-- the part of `check` from the call of `allow` on
unfoldable pub admit :
    Limiter → String → SlidingWindow → String → ℕ → Result Error (Limiter × Option ℕ)
admit l path window key now = do
  let (called, allowed) = allow window key now
  let written = record l { windows = insert l.windows path called }
  (l', final) ← shrink_above written path called now
  if allowed then ok (l', none) else (do wait ← retry_after final key now; ok (l', some wait))

abbrev pub is_full : Limiter → SlidingWindow → Bool
is_full l window = leb (2 * l.max_keys) (length window.events)

check_window : Limiter → String → SlidingWindow → String → ℕ → Result Error (Limiter × Option ℕ)
check_window l path window key now =
    if not (has window.events key) && is_full l window
    then (do
      (l', shrunk) ← maybe_shrink l path window now
      if is_full l' shrunk then ok (l', some shrunk.window) else admit l' path shrunk key now)
    else admit l path window key now

-- `some r` is a refusal, with the time to wait
unfoldable pub check : Limiter → String → String → ℕ → Result Error (Limiter × Option ℕ)
unfolding check_window
check l path client now = elim (lookup l.windows path) [
  | none ↦ ok (l, none)
  | some window ↦ check_window l path window (client_entry path client) now
]
