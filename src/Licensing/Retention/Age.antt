-- ===== src/Licensing/Retention/Age.antt =====
-- How old a row of the purged tables can be: the histories of dealfinder/retention.py's job beside
-- `upsert` of dealfinder/pgstore.py and `add_watch` of dealfinder/userstore.py.
use mathlib.Core.List.{Memᴰ}
use tutorial_dealfinder.Base.{
  All-keep, All-weaken, ℕ, ◌+◌, Bool, true, List, [], ◌∷◌, ◌≡◌, ◌≤◌, ◌⊎◌, keep, sym, subst,
  string_eq, arith, Bool-cases, inl, inr, All,
}
use tutorial_dealfinder.Licensing.{may_store}
use tutorial_dealfinder.Licensing.Retention.{
  Row, Tables, delete_rows, purge_expired, retention_margin,
}
use tutorial_dealfinder.Licensing.Retention.Exact.{may_stay, delete_rows_lem}

-- The two tables at the time `now`, last purged at `last`. A purge comes at most a day after the last
-- one: the job runs every 12 hours, and one run may fail. In between `upsert` stores offers of
-- sources that may be stored, with the time `fetched_at` at which the store answered, at most a day
-- before; `add_watch` stores an offer of the table with the offer's own time; and rows are taken out.
-- An update of a row takes the old one out first.
pub data Purged : ℕ → ℕ → Tables → Type 0 where
  start : (now : ℕ) → Purged now now (record { offers = []; watchlist = [] })
  wait :
      {last now : ℕ} {t : Tables} (now' : ℕ)
      → Purged last now t
      → now ≤ now'
      → now' ≤ last + 86400
      → Purged last now' t
  stored :
      {last now : ℕ} {t : Tables} (row : Row)
      → Purged last now t
      → may_store row.source ≡ true
      → now ≤ row.stamp + 86400
      → Purged last now (record { offers = row ∷ t.offers; watchlist = t.watchlist })
  watched :
      {last now : ℕ} {t : Tables} (row : Row)
      → Purged last now t
      → Memᴰ row t.offers
      → may_store row.source ≡ true
      → Purged last now (record { offers = t.offers; watchlist = row ∷ t.watchlist })
  forget :
      {last now : ℕ} {t : Tables} (p q : Row → Bool)
      → Purged last now t
      → Purged last now (record { offers = keep p t.offers; watchlist = keep q t.watchlist })
  purge :
      {last now : ℕ} {t : Tables}
      → Purged last now t
      → Purged now now (purge_expired now retention_margin t).0

-- what the invariant says of one row: it was fetched at most a day before the last purge or later, or
-- that purge let it stay
abbrev Recent : ℕ → Row → Type 0
Recent last row =
    (may_store row.source ≡ true)
    × ((last ≤ row.stamp + 86400) ⊎ (last + 90000 ≤ row.stamp + 259200))

abbrev AllRecent : ℕ → Tables → Type 0
AllRecent last t = All (Recent last) t.offers × All (Recent last) t.watchlist

-- what holds of all items holds of each
All-Memᴰ : (P : Row → Type 0) (rows : List Row) (row : Row) → All P rows → Memᴰ row rows → P row
All-Memᴰ P [] row h m = elim m [ ]
All-Memᴰ P (r ∷ rows) row h (Memᴰ.head e) = subst P (sym e) h.0
All-Memᴰ P (r ∷ rows) row h (Memᴰ.tail m) = All-Memᴰ P rows row h.1 m

kept-Recent :
    (now : ℕ) (rows : List Row) → All (Recent now) (keep (may_stay now retention_margin) rows)
unfolding keep
kept-Recent now [] = tt
kept-Recent now (r ∷ rows) = elim (Bool-cases (may_stay now retention_margin r)) [
  | inl e ↦ rw e ((ground (arith, e), inr (ground (arith, e))), kept-Recent now rows)
  | inr e ↦ rw e (kept-Recent now rows)
]

purged-Recent :
    (now : ℕ) (rows : List Row) → All (Recent now) (delete_rows now retention_margin rows).0
purged-Recent now rows = rw ((delete_rows_lem now retention_margin rows).0) (kept-Recent now rows)

purge_expired-Recent :
    (now : ℕ) (t : Tables) → AllRecent now (purge_expired now retention_margin t).0
unfolding purge_expired
purge_expired-Recent now t = (purged-Recent now t.offers, purged-Recent now t.watchlist)

Purged-Recent :
    {last now : ℕ} {t : Tables}
    → Purged last now t
    → AllRecent last t × (last ≤ now) × (now ≤ last + 86400)
Purged-Recent (Purged.start now) = ((tt, tt), omega arith, omega arith)
Purged-Recent (Purged.wait now' h le day) =
    let (all, past, old_day) = Purged-Recent h in (all, omega (arith, le, past), day)
Purged-Recent (Purged.stored row h storable fetched) =
    let (all, le, day) = Purged-Recent h in
    ((((storable, inl (omega (arith, le, fetched))), all.0), all.1), le, day)
Purged-Recent {last} (Purged.watched {t = t} row h offered storable) =
    let (all, le, day) = Purged-Recent h in
    ((all.0, (All-Memᴰ (Recent last) t.offers row all.0 offered, all.1)), le, day)
Purged-Recent {last} (Purged.forget {t = t} p q h) =
    let (all, le, day) = Purged-Recent h in
    ((All-keep (Recent last) p t.offers all.0, All-keep (Recent last) q t.watchlist all.1), le, day)
Purged-Recent {now = now} (Purged.purge {t = t} h) =
    (purge_expired-Recent now t, omega arith, omega arith)

-- the terms allow the row at the time: its source may be stored, and it is at most 71 hours old
abbrev pub IsAllowed : ℕ → Row → Type 0
IsAllowed now row = (may_store row.source ≡ true) × (now + 3600 ≤ row.stamp + 259200)

Recent-IsAllowed :
    (last now : ℕ) (rows : List Row)
    → now ≤ last + 86400
    → All (Recent last) rows
    → All (IsAllowed now) rows
Recent-IsAllowed last now rows day all =
    All-weaken (Recent last) (IsAllowed now) rows (λ r k. (k.0, (ground (arith, k.1, day)))) all

-- In every history of the two tables in which a purge comes at most a day after the last one, with
-- the code's margin of 25 hours, and in which offers are stored at most a day after their store
-- answered: at any time, every offer and every watch is of a source that may be stored, and its data
-- is at most 71 hours old.
pub Purged-age :
    {last now : ℕ} {t : Tables}
    → Purged last now t
    → All (IsAllowed now) t.offers × All (IsAllowed now) t.watchlist
Purged-age {last} {now} {t} h =
    let (all, le, day) = Purged-Recent h in
    (Recent-IsAllowed last now t.offers day all.0, Recent-IsAllowed last now t.watchlist day all.1)
