-- ===== src/Compliance/Abuse.antt =====
-- `AbuseDetector` of dealfinder/compliance.py. A reason is a constructor with the numbers that the
-- source formats into its text.
pub mod Recent
pub mod Signals
use tutorial_dealfinder.Base.{
  ℕ, ◌+◌, String, Bool, true, false, ◌||◌, not, Option, none, some, List, [], ◌∷◌, ◌++◌, ltb, leb,
  if◌then◌else◌, length, count, Dict, lookup, insert, get_or, string_eq,
}
use tutorial_dealfinder.Compliance.Window.{expired}
use tutorial_dealfinder.Safety.{detect_prompt_injection}

pub data Reason : Type 0 where
  -- how many requests, in which window
  velocity : ℕ → ℕ → Reason
  -- how many attempts, in which window
  injection : ℕ → ℕ → Reason

pub record AbuseSignal : Type 0 where
  pub user_id : String
  pub flagged : Bool
  pub reasons : List Reason

pub record AbuseDetector : Type 0 where
  pub window : ℕ
  pub max_events : ℕ
  pub max_injections : ℕ
  -- each user's deque of request times, with whether the text was an injection
  pub events : Dict String (List (ℕ × Bool))

-- `__init__`
abbrev pub init : ℕ → ℕ → ℕ → AbuseDetector
init window max_events max_injections = record {
  window = window;
  max_events = max_events;
  max_injections = max_injections;
  events = [];
}

-- `self._events[user_id]`, of a `defaultdict(deque)`
abbrev pub events_of : AbuseDetector → String → List (ℕ × Bool)
events_of d user = get_or (lookup d.events user) []

-- `while events and events[0][0] <= cutoff: events.popleft()`
unfoldable pub evict : ℕ → ℕ → List (ℕ × Bool) → List (ℕ × Bool)
evict window now [] = []
evict window now (e ∷ es) =
    let rest = evict window now es in if expired window now e.0 then rest else e ∷ es

-- the reasons for a deque
unfoldable pub reasons_of : AbuseDetector → List (ℕ × Bool) → List Reason
reasons_of d events =
    let n = length events in
    let injections = count (λ e. e.1) events in
    (if ltb d.max_events n then velocity n d.window ∷ [] else [])
    ++ (if leb d.max_injections injections then injection injections d.window ∷ [] else [])

-- `bool(reasons)`
unfoldable pub is_flagged : List Reason → Bool
is_flagged [] = false
is_flagged (_ ∷ _) = true

-- `observe`; `search` is `re.search`
unfoldable pub observe :
    (String → String → Bool) → AbuseDetector → String → String → ℕ → AbuseDetector × AbuseSignal
observe search d user text now =
    let attempt = detect_prompt_injection search text in
    let events = evict d.window now (events_of d user ++ (now, attempt) ∷ []) in
    let reasons = reasons_of d events in
    (
      record d { events = insert d.events user events },
      record { user_id = user; flagged = is_flagged reasons; reasons = reasons },
    )
