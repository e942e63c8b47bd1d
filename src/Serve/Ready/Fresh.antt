-- ===== src/Serve/Ready/Fresh.antt =====
-- What `/readyz` and `_DB` of dealfinder/serve.py say of the database, after any requests.
use tutorial_dealfinder.Base.{
  ℕ, ◌+◌, ◌≤◌, ◌<◌, ◌≡◌, ◌⊎◌, String, true, false, ◌&&◌, ◌||◌, Option, none, some, ltb, arith, refl,
  Bool-cases, inl, inr,
}
use tutorial_dealfinder.Serve.Ready.{
  Health, current, Probe, Process, Answers, Times, unset, db_ready, boot, maybe_recheck_db,
  health_at, probe, is_stale, answer_of, readyz, recheck_after,
}

module _ (url : Option String) (db : Answers) (duration : ℕ) where
  -- A probe that starts at `now` asks the database and then stamps, and takes at most the duration.
  abbrev pub Takes : ℕ → Times → Type 0
  Takes now t =
      (now ≤ t.pinged)
      × (t.pinged ≤ t.looked)
      × (t.looked ≤ t.stamped)
      × (t.stamped ≤ now + duration)

  -- A process at the time `now`, after any requests, one after the other.
  pub data Runs : ℕ → Process → Type 0 where
    booted : (asked now : ℕ) → asked ≤ now → Runs now (boot url db asked now)
    wait : {now : ℕ} {p : Process} (now' : ℕ) → Runs now p → now ≤ now' → Runs now' p
    rechecked :
        {now : ℕ} {p : Process} (asked : ℕ)
        → Runs now p
        → now ≤ asked
        → Runs asked (maybe_recheck_db url db p now asked)
    probed :
        {now : ℕ} {p : Process} (t : Times)
        → Runs now p
        → Takes now t
        → Runs t.stamped (readyz url db p now t).0

  -- at some time until `now`, the database was ready
  abbrev pub WasReady : ℕ → Type 0
  WasReady now =
      (pinged : ℕ) × (looked : ℕ) × (pinged ≤ looked)
      × (looked ≤ now)
      × ((db.schema_ready looked ≡ true)
          ⊎ ((db.ping pinged ≡ true) × (db.schema_current looked ≡ true)))

  -- a probe's answer is the database's at its times
  abbrev ProbeOk : ℕ → Option Probe → Type 0
  ProbeOk now none = Unit
  ProbeOk now (some r) =
      (pinged : ℕ) × (looked : ℕ) × (pinged ≤ looked)
      × (looked ≤ r.checked_at)
      × (r.checked_at ≤ now)
      × (r.checked_at ≤ pinged + duration)
      × (r.health ≡ health_at url db pinged looked)

  abbrev Sound : ℕ → Process → Type 0
  Sound now p =
      (p.db_on ≡ true → WasReady now)
      × ProbeOk now p.ready
      × (answer_of p.ready ≡ current → p.db_on ≡ true)

  ProbeOk-later : (now now' : ℕ) (o : Option Probe) → now ≤ now' → ProbeOk now o → ProbeOk now' o
  ProbeOk-later now now' none le h = tt
  ProbeOk-later now now' (some r) le (pinged, looked, a, b, c, d, e) =
      (pinged, looked, a, b, omega (arith, le, c), d, e)

  WasReady-later : (now now' : ℕ) → now ≤ now' → WasReady now → WasReady now'
  WasReady-later now now' le (pinged, looked, a, past, was) =
      (pinged, looked, a, omega (arith, le, past), was)

  Sound-later : (now now' : ℕ) (p : Process) → now ≤ now' → Sound now p → Sound now' p
  Sound-later now now' p le (on, held, latched) =
      (λ k. WasReady-later now now' le (on k), ProbeOk-later now now' p.ready le held, latched)

  db_ready-WasReady : (asked now : ℕ) → asked ≤ now → db_ready url db asked ≡ true → WasReady now
  unfolding db_ready
  db_ready-WasReady asked now le h = (asked, asked, omega arith, le, inl (ground (arith, h)))

  recheck-Sound :
      (now asked : ℕ) (p : Process)
      → now ≤ asked
      → Sound now p
      → Sound asked (maybe_recheck_db url db p now asked)
  unfolding maybe_recheck_db
  recheck-Sound now asked p le h =
      let later = Sound-later now asked p le h in
      elim (Bool-cases (p.db_on || unset url)) [
        | inl e ↦ rw (e, maybe_recheck_db) later
        | inr e ↦ elim (Bool-cases (ltb now (p.db_checked_at + recheck_after))) [
          | inl f ↦ rw (e, f, maybe_recheck_db) later
          | inr f ↦
              rw (e, f, maybe_recheck_db)
                (
                  λ on. db_ready-WasReady asked asked (omega arith) on,
                  later.1,
                  λ k. ground (arith, e, h.2 k),
                )
        ]
      ]

  health_at-current :
      (pinged looked : ℕ)
      → health_at url db pinged looked ≡ current
      → (db.ping pinged && db.schema_current looked) ≡ true
  unfolding health_at
  health_at-current pinged looked h = elim (Bool-cases (db.ping pinged)) [
    | inr e ↦ absurd (ground (arith, h, e))
    | inl e ↦ elim (Bool-cases (db.schema_current looked)) [
      | inr f ↦ absurd (ground (arith, h, e, f))
      | inl f ↦ ground (arith, e, f)
    ]
  ]

  probe-Sound :
      (now : ℕ) (p : Process) (t : Times)
      → Takes now t
      → Sound now p
      → Sound t.stamped (probe url db p t)
  unfolding probe
  probe-Sound now p t (a, b, c, d) h = (
    λ on. elim (Bool-cases p.db_on) [
      | inl e ↦ WasReady-later now t.stamped (omega (arith, a, b, c)) (h.0 e)
      | inr e ↦ (t.pinged, t.looked, b, c, inr (ground (arith, on, e), ground (arith, on, e)))
    ],
    (t.pinged, t.looked, b, c, omega arith, omega (arith, a, d), refl),
    λ k. ground (arith, health_at-current t.pinged t.looked k),
  )

  readyz-Sound :
      (now : ℕ) (p : Process) (t : Times)
      → Takes now t
      → Sound now p
      → Sound t.stamped (readyz url db p now t).0
  unfolding readyz
  readyz-Sound now p t takes h =
      let later = Sound-later now t.stamped p (omega (arith, takes.0, takes.1, takes.2)) h in
      elim (Bool-cases (unset url)) [
        | inl e ↦ rw (e, readyz) later
        | inr e ↦ elim (Bool-cases (is_stale p.ready now)) [
          | inl f ↦ rw (e, f, readyz) (probe-Sound now p t takes h)
          | inr f ↦ rw (e, f, readyz) later
        ]
      ]

  boot-Sound : (asked now : ℕ) → asked ≤ now → Sound now (boot url db asked now)
  unfolding boot
  boot-Sound asked now le = (λ on. db_ready-WasReady asked now le on, tt, λ k. absurd (cc))

  Runs-Sound : {now : ℕ} {p : Process} → Runs now p → Sound now p
  Runs-Sound (Runs.booted asked now le) = boot-Sound asked now le
  Runs-Sound (Runs.wait {now} {p} now' r le) = Sound-later now now' p le (Runs-Sound r)
  Runs-Sound (Runs.rechecked {now} {p} asked r le) = recheck-Sound now asked p le (Runs-Sound r)
  Runs-Sound (Runs.probed {now} {p} t r takes) = readyz-Sound now p t takes (Runs-Sound r)

  -- the database's health of a ping and a look at the schema, done by `done`, the ping less than 30
  -- seconds and the duration of a probe before `now`
  abbrev pub Recent : ℕ → ℕ → Health → Type 0
  Recent now done h =
      (pinged : ℕ) × (looked : ℕ) × (pinged ≤ looked)
      × (looked ≤ done)
      × (now < pinged + 30 + duration)
      × (h ≡ health_at url db pinged looked)

  fresh-Recent :
      (now done : ℕ) (o : Option Probe)
      → now ≤ done
      → ProbeOk now o
      → is_stale o now ≡ false
      → Recent now done (answer_of o)
  unfolding is_stale
  fresh-Recent now done none le h f = absurd (cc)
  fresh-Recent now done (some r) le (pinged, looked, a, b, c, d, e) f =
      (pinged, looked, a, omega (arith, b, c, le), ground (arith, f, d), e)

  -- After any requests, one after the other, where a database is set and no probe of it takes longer
  -- than a duration: what `/readyz` answers is what the database's ping and then its schema said, the
  -- ping less than 30 seconds and that duration before the request came; while it answers that the
  -- schema is current, the account routes are on; and whenever they are on, the database was ready
  -- at some time before.
  pub readyz-Recent :
      {now : ℕ} {p : Process} (t : Times)
      → Runs now p
      → Takes now t
      → unset url ≡ false
      → let (p', health) = readyz url db p now t in
        Recent now t.stamped health
        × (health ≡ current → p'.db_on ≡ true)
        × (p'.db_on ≡ true → WasReady t.stamped)
  unfolding readyz probe
  readyz-Recent {now} {p} t r (a, b, c, d) set =
      let sound = Runs-Sound r in
      let done : now ≤ t.stamped = omega (arith, a, b, c) in
      let (on, held, latched) = Sound-later now t.stamped p done sound in
      let (on', held', latched') = probe-Sound now p t (a, b, c, d) sound in
      elim (Bool-cases (is_stale p.ready now)) [
        | inl f ↦
            rw (set, f, readyz) ((t.pinged, t.looked, b, c, omega (arith, a), refl), latched', on')
        | inr f ↦
            rw (set, f, readyz) (fresh-Recent now t.stamped p.ready done sound.1 f, latched, on)
      ]
