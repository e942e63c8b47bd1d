-- ===== src/Licensing/Tests.antt =====
-- Runs of dealfinder/licensing.py and dealfinder/retention.py.
use mathlib.Core.List.{Memᴰ}
use tutorial_dealfinder.Base.{
  ◌+◌, All, arith, length, true, false, none, some, List, [], ◌∷◌, ◌≡◌, refl, lookup, keep, any,
}
use tutorial_dealfinder.Licensing.{
  may_verdict, may_store, policy_for, source_key, before_colon, launch_sources,
}
use tutorial_dealfinder.Licensing.Retention.{
  Row, Tables, deleted, key_matches, past_cutoff, delete_rows, purge_expired,
}
use tutorial_dealfinder.Licensing.Retention.Exact.{may_stay, purge_expired_lem}
use tutorial_dealfinder.Licensing.Retention.Age.{Purged, IsAllowed, Purged-age}

program : Unit {0}
unfolding may_verdict may_store policy_for source_key before_colon lookup keep any deleted
    key_matches past_cutoff delete_rows
program = tt

bestbuy_sale : may_verdict (some "BestBuy:sale") ≡ true
unfolding program
bestbuy_sale = refl

ebay_used : may_store (some "eBay:Used") ≡ false
unfolding program
ebay_used = refl

launched : launch_sources ≡ "BestBuy" ∷ "eBay" ∷ []
unfolding program
launched = refl

abbrev rows : List Row
rows =
    record { source = some "BestBuy:sale"; stamp = 1000 }
    ∷ record { source = none; stamp = 200000 }
    ∷ record { source = some "BestBuy"; stamp = 500 }
    ∷ []

purged :
    delete_rows 170200 90000 rows ≡ (record { source = some "BestBuy:sale"; stamp = 1000 } ∷ [], 2)
unfolding program
purged = refl

abbrev tables : Tables
tables = record { offers = rows; watchlist = [] }

purge_expired_lem_example :
    let (left, (removed, unwatched)) = purge_expired 170200 90000 tables in
    (left.offers ≡ keep (may_stay 170200 90000) rows)
    × (left.watchlist ≡ keep (may_stay 170200 90000) [])
    × (length left.offers + removed ≡ 3)
    × (length left.watchlist + unwatched ≡ 0)
purge_expired_lem_example = purge_expired_lem 170200 90000 tables

abbrev tv : Row
tv = record { source = some "BestBuy"; stamp = 900 }

tv_may_store : may_store (some "BestBuy") ≡ true
unfolding program
tv_may_store = refl

-- an offer fetched at 900 is stored at 1000 and watched at once; both survive the purge at 40000 and
-- are seen a day later
abbrev history :
    Purged 40000 126400
      (purge_expired 40000 90000 (record { offers = tv ∷ []; watchlist = tv ∷ [] })).0
history =
    Purged.wait 126400
      (Purged.purge (
        Purged.wait 40000
          (Purged.watched tv
            (Purged.stored tv (Purged.wait 1000 (Purged.start 0) (omega arith) (omega arith))
              tv_may_store (omega arith))
            (Memᴰ.head refl) tv_may_store)
          (omega arith) (omega arith)))
      (omega arith) (omega arith)

Purged-age_example :
    let t = (purge_expired 40000 90000 (record { offers = tv ∷ []; watchlist = tv ∷ [] })).0 in
    All (IsAllowed 126400) t.offers × All (IsAllowed 126400) t.watchlist
Purged-age_example = Purged-age history
