-- ===== src/Licensing/Retention.antt =====
-- dealfinder/retention.py: the purge of the stored rows. Times and ages are whole seconds.
pub mod Exact
pub mod Age
use tutorial_dealfinder.Base.{
  ℕ, ◌+◌, String, Bool, true, false, not, ◌&&◌, ◌||◌, Option, none, some, List, [], ◌∷◌, map, keep,
  any, length, ltb, Dict, lookup, string_eq, ◌==◌,
}
use tutorial_dealfinder.Licensing.{SourcePolicy, policies, source_key, before_colon}

-- `RETENTION_MARGIN_S`
abbrev pub retention_margin : ℕ
retention_margin = 90000

-- A row of `offers` or `watchlist`: its source, and `fetched_at` or `last_checked_at`.
pub record Row : Type 0 where
  pub source : Option String
  pub stamp : ℕ

-- `[p for p in POLICIES.values() if p.store]`
abbrev pub storable : List SourcePolicy
storable = keep (λ p. p.store) (map (λ e. e.1) policies)

-- `key = split_part(source, ':', 1)`, which is not true of a null source
unfoldable pub key_matches : String → Option String → Bool
key_matches key none = false
key_matches key (some source) = key == before_colon source

-- `stamp < now - timedelta(seconds=max_age_s - margin_s)`
unfoldable pub past_cutoff : ℕ → ℕ → SourcePolicy → ℕ → Bool
past_cutoff now margin p stamp = ltb (stamp + p.max_age_s) (now + margin)

-- the condition of `_PURGE`
unfoldable pub deleted : ℕ → ℕ → Row → Bool
deleted now margin row =
    not (any (λ p. key_matches p.key row.source) storable)
    || any (λ p. key_matches p.key row.source && past_cutoff now margin p row.stamp) storable

-- the `DELETE` of `_PURGE` on one table: the rows left, and `rowcount`
unfoldable pub delete_rows : ℕ → ℕ → List Row → List Row × ℕ
delete_rows now margin rows =
    (keep (λ r. not (deleted now margin r)) rows, length (keep (deleted now margin) rows))

pub record Tables : Type 0 where
  pub offers : List Row
  pub watchlist : List Row

-- `purge_expired`: the tables left, and the counts for `offers` and `watchlist`
unfoldable pub purge_expired : ℕ → ℕ → Tables → Tables × (ℕ × ℕ)
unfolding delete_rows
purge_expired now margin t =
    let (offers, removed) = delete_rows now margin t.offers in
    let (watchlist, unwatched) = delete_rows now margin t.watchlist in
    (record { offers = offers; watchlist = watchlist }, (removed, unwatched))
