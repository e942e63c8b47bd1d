-- ===== src/Licensing/Retention/Exact.antt =====
-- The purge of dealfinder/retention.py against the policies of dealfinder/licensing.py.
use tutorial_dealfinder.Base.{
  sym, subst, Option-cases, ℕ, ◌+◌, String, Bool, false, not, ◌&&◌, ◌||◌, none, some, List, [], ◌∷◌,
  ◌≡◌, refl, ap, keep, any, length, lookup, string_eq, ◌==◌, arith, Bool-cases, inl, inr, leb, ltb,
}
use tutorial_dealfinder.Licensing.{policies, source_key, policy_for, before_colon, may_store}
use tutorial_dealfinder.Licensing.Retention.{
  Row, storable, key_matches, past_cutoff, deleted, delete_rows, Tables, purge_expired,
}

-- what the terms ask for: the source may be stored, and the row is no older than 72 hours less the
-- margin
abbrev pub may_stay : ℕ → ℕ → Row → Bool
may_stay now margin row = may_store row.source && leb (now + margin) (row.stamp + 259200)

-- the condition of the purge at a row of the store `key`, which is past the cutoff or not
deletes : String → Bool → Bool
deletes key late =
    not (any (λ p. p.key == key) storable) || any (λ p. p.key == key && late) storable

store_allowed : String → Bool
store_allowed key = elim (lookup policies key) [ none ↦ false | some p ↦ p.store ]

deletes-stays :
    (key : String) (late : Bool) → not (deletes key late) ≡ store_allowed key && not late
unfolding deletes store_allowed any keep lookup
deletes-stays key late = elim (Bool-cases ("eBay" == key)) [
  | inl e ↦
      subst (λ k. not (deletes k late) ≡ store_allowed k && not late)
        ((string_eq.same_iff "eBay" key).0 e) refl
  | inr e ↦ ground (arith, e)
]

-- a null source belongs to no store
nothing_stored : store_allowed "" ≡ false
unfolding store_allowed lookup
nothing_stored = refl

not_late : (a b : ℕ) → not (ltb a b) ≡ leb b a
not_late a b = ground arith

-- What `purge_expired` deletes from a table is exactly what the terms do not let stay there: it
-- keeps a row if and only if its source may be stored and it is at most 72 hours less the margin
-- old.
pub deleted-may_stay :
    (now margin : ℕ) (row : Row) → not (deleted now margin row) ≡ may_stay now margin row
unfolding deletes store_allowed deleted may_store key_matches policy_for source_key any keep
    past_cutoff
deleted-may_stay now margin row = elim (Option-cases row.source) [
  | inl e ↦ rw e (ap (λ b. b && leb (now + margin) (row.stamp + 259200)) (sym nothing_stored))
  | inr (s, e) ↦
      rw (e, ← not_late (row.stamp + 259200) (now + margin))
        (deletes-stays (before_colon s) (ltb (row.stamp + 259200) (now + margin)))
]

pub delete_rows_lem :
    (now margin : ℕ) (rows : List Row)
    → let (left, removed) = delete_rows now margin rows in
      (left ≡ keep (may_stay now margin) rows) × (length left + removed ≡ length rows)
unfolding delete_rows keep
delete_rows_lem now margin [] = (refl, refl)
delete_rows_lem now margin (r ∷ rows) =
    ground (arith, delete_rows_lem now margin rows, deleted-may_stay now margin r)

-- `purge_expired` leaves exactly the rows of `offers` and of `watchlist` whose source may be stored
-- and that are at most 72 hours less the margin old, in their order, and its two counts are the
-- numbers of rows that it took out of each table.
pub purge_expired_lem :
    (now margin : ℕ) (t : Tables)
    → let (left, (removed, unwatched)) = purge_expired now margin t in
      (left.offers ≡ keep (may_stay now margin) t.offers)
      × (left.watchlist ≡ keep (may_stay now margin) t.watchlist)
      × (length left.offers + removed ≡ length t.offers)
      × (length left.watchlist + unwatched ≡ length t.watchlist)
unfolding purge_expired
purge_expired_lem now margin t = (
  (delete_rows_lem now margin t.offers).0,
  (delete_rows_lem now margin t.watchlist).0,
  (delete_rows_lem now margin t.offers).1,
  (delete_rows_lem now margin t.watchlist).1,
)
