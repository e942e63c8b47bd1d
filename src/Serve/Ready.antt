-- ===== src/Serve/Ready.antt =====
-- The database's readiness in dealfinder/serve.py: `_DB` with its recheck, and `/readyz` with its
-- cache. A time is a second of `time.monotonic()`; what the database answers is a parameter.
pub mod Fresh
use tutorial_dealfinder.Base.{
  ℕ, ◌+◌, String, Bool, true, false, not, ◌&&◌, ◌||◌, ◌==◌, Option, none, some, ltb, leb,
  if◌then◌else◌, string_eq,
}

-- `_DB_RECHECK_S`, `_READY_TTL_S`
abbrev pub recheck_after : ℕ
recheck_after = 30

abbrev pub ready_ttl : ℕ
ready_ttl = 30

-- An answer of `/readyz`: no database is set, 503 for a database that is down or behind, 200.
pub data Health : Type 0 where
  disabled down pending current : Health

-- `_READY`
pub record Probe : Type 0 where
  pub checked_at : ℕ
  pub health : Health

-- `_DB`, `_DB_CHECKED_AT`, `_READY`
pub record Process : Type 0 where
  pub db_on : Bool
  pub db_checked_at : ℕ
  pub ready : Option Probe

-- What the database answers at a time: `migrate.schema_ready`, `db.ping`, `db.schema_current`.
pub record Answers : Type 0 where
  pub schema_ready : ℕ → Bool
  pub ping : ℕ → Bool
  pub schema_current : ℕ → Bool

-- The times of a probe: the call of `ping`, the call of `schema_current`, and the stamp of `_READY`.
pub record Times : Type 0 where
  pub pinged : ℕ
  pub looked : ℕ
  pub stamped : ℕ

-- `not url`, of DATABASE_URL
abbrev pub unset : Option String → Bool
unset none = true
unset (some url) = url == ""

-- `_READY is None or time.monotonic() - _READY[0] >= _READY_TTL_S`
unfoldable pub is_stale : Option Probe → ℕ → Bool
is_stale none now = true
is_stale (some r) now = leb (r.checked_at + ready_ttl) now

-- `_READY[2]`
abbrev pub answer_of : Option Probe → Health
answer_of none = disabled
answer_of (some r) = r.health

module _ (url : Option String) (db : Answers) where
  -- `_db_ready`
  unfoldable pub db_ready : ℕ → Bool
  db_ready now = not (unset url) && db.schema_ready now

  -- the module's start: the database is asked at a time, and `_DB_CHECKED_AT` is set at one
  unfoldable pub boot : ℕ → ℕ → Process
  boot asked now = record { db_on = db_ready asked; db_checked_at = now; ready = none }

  -- `_maybe_recheck_db` at the time `now`, which asks the database at the time `asked`
  unfoldable pub maybe_recheck_db : Process → ℕ → ℕ → Process
  maybe_recheck_db p now asked =
      if p.db_on || unset url
      then p
      else if ltb now (p.db_checked_at + recheck_after)
      then p
      else record p { db_on = db_ready asked; db_checked_at = now }

  -- the health that a probe finds, of the times of the ping and of the look at the schema
  unfoldable pub health_at : ℕ → ℕ → Health
  health_at pinged looked =
      if not (db.ping pinged)
      then down
      else if not (db.schema_current looked)
      then pending
      else current

  -- a probe, which turns `_DB` on where the schema is current
  unfoldable pub probe : Process → Times → Process
  probe p t = record {
    db_on = p.db_on || (db.ping t.pinged && db.schema_current t.looked);
    db_checked_at = p.db_checked_at;
    ready = some (record { checked_at = t.stamped; health = health_at t.pinged t.looked });
  }

  -- `readyz` at the time `now`
  unfoldable pub readyz : Process → ℕ → Times → Process × Health
  readyz p now t =
      if unset url
      then (p, disabled)
      else (let p' = if is_stale p.ready now then probe p t else p in (p', answer_of p'.ready))
