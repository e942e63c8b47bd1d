-- ===== src/Auth/Jwks.antt =====
-- `_Jwks` of dealfinder/auth.py: one project's cached signing keys. Times are whole seconds of
-- `time.monotonic()`, and `none` is `float("-inf")`. PyJWT's key set is a parameter: `key_of ks kid`
-- is `ks[kid]`, or nothing where that raises `KeyError`. What the network answers and when, whether
-- the lock is taken in time, and what other threads did to the cache meanwhile are arguments.
pub mod Fetches
pub mod Keys
use tutorial_dealfinder.Base.{
  ℕ, ◌+◌, String, Bool, true, false, ◌&&◌, ◌||◌, not, Option, none, some, leb, ltb, if◌then◌else◌,
  is_some, Result, ok, raise,
}

pub data KeyError : Type 0 where
  unavailable invalid_key : KeyError

-- `_JWKS_TTL_S`, `_JWKS_MIN_REFRESH_S`, `_JWKS_RETRY_S`
abbrev pub ttl : ℕ
ttl = 600

abbrev pub min_refresh : ℕ
min_refresh = 60

abbrev pub retry : ℕ
retry = 30

pub record Jwks (KeySet : Type 0) : Type 0 where
  pub keys : Option KeySet
  pub fetched_at : Option ℕ
  pub failed_at : Option ℕ

-- `__init__`
abbrev pub empty : {KeySet : Type 0} → Jwks KeySet
empty = record { keys = none; fetched_at = none; failed_at = none }

-- `time.monotonic() - at >= span`
abbrev pub elapsed : Option ℕ → ℕ → ℕ → Bool
elapsed none span now = true
elapsed (some at) span now = leb (at + span) now

-- What a call leaves behind: the cache, its answer, and how many requests went to the network.
pub record Reply (KeySet Key : Type 0) : Type 0 where
  pub cache : Jwks KeySet
  pub answer : Result KeyError Key
  pub requests : ℕ

-- `_fetch`: the network gives a key set, or anything that raises; the clock is read afterwards
unfoldable pub fetch : {KeySet : Type 0} → Jwks KeySet → Option KeySet → ℕ → Jwks KeySet × Bool
fetch c none now = (record c { failed_at = some now }, false)
fetch c (some ks) now = (record c { keys = some ks; fetched_at = some now }, true)

-- What the first part of `key_for` decides: an answer, or to take the lock with the key at hand.
pub data Phase (Key : Type 0) : Type 0 where
  answered : Result KeyError Key → Phase Key
  locking : Option Key → Phase Key

-- What happens to a call that takes the lock: whether it got the lock before the timeout, the
-- clock then, what the network answers, and the clock after that.
pub record Wait (KeySet : Type 0) : Type 0 where
  pub acquired : Bool
  pub checked_at : ℕ
  pub network : Option KeySet
  pub returned_at : ℕ

-- `key`, or the error if there is none
abbrev pub key_or : {Key : Type 0} → Option Key → KeyError → Result KeyError Key
key_or none e = raise e
key_or (some k) e = ok k

module _ {KeySet Key : Type 0} (key_of : KeySet → Option String → Option Key) where
  -- `_lookup`
  abbrev pub find_key : Jwks KeySet → Option String → Option Key
  find_key c kid = elim c.keys [ none ↦ none | some ks ↦ key_of ks kid ]

  -- `_needs_fetch`
  unfoldable pub needs_fetch : Jwks KeySet → Option String → ℕ → Bool
  needs_fetch c kid now =
      elapsed c.fetched_at ttl now
      || (not (is_some (find_key c kid)) && elapsed c.fetched_at min_refresh now)

  -- `key_for` up to the lock; the clock is read at `now`, and again at `now'`
  unfoldable pub begin : Jwks KeySet → Option String → ℕ → ℕ → Phase Key
  unfolding needs_fetch
  begin c kid now now' =
      let key = find_key c kid in
      if not (needs_fetch c kid now)
      then answered (key_or key invalid_key)
      else if not (elapsed c.failed_at retry now')
      then answered (key_or key unavailable)
      else locking key

  -- `key_for` under the lock, after the cache was perhaps fetched
  abbrev pub after_fetch : Option Key → Jwks KeySet × Bool → Option String → Reply KeySet Key
  after_fetch key (c, false) kid = record {
    cache = c;
    answer = key_or key unavailable;
    requests = 1;
  }
  after_fetch key (c, true) kid = record {
    cache = c;
    answer = key_or (find_key c kid) invalid_key;
    requests = 1;
  }

  -- `key_for` from the lock on; `c` is the cache as other threads have left it
  unfoldable pub finish : Jwks KeySet → Option String → Option Key → Wait KeySet → Reply KeySet Key
  unfolding needs_fetch fetch
  finish c kid key w =
      if not w.acquired
      then record { cache = c; answer = key_or key unavailable; requests = 0 }
      else if needs_fetch c kid w.checked_at
      then after_fetch key (fetch c w.network w.returned_at) kid
      else record { cache = c; answer = key_or (find_key c kid) invalid_key; requests = 0 }

  -- `key_for`: `later` is the cache as it stands when the lock is taken, or given up
  unfoldable pub key_for :
      Jwks KeySet → Option String → ℕ → ℕ → Jwks KeySet → Wait KeySet → Reply KeySet Key
  unfolding begin finish
  key_for c kid now now' later w = elim (begin c kid now now') [
    | answered r ↦ record { cache = c; answer = r; requests = 0 }
    | locking key ↦ finish later kid key w
  ]
