-- ===== src/Userstore/Watches.antt =====
-- What `add_watch` of dealfinder/userstore.py leaves in the watchlist.
use tutorial_dealfinder.Base.{
  ℕ, ◌+◌, ◌≤◌, ◌≡◌, String, true, false, Option, none, some, [], ◌∷◌, leb, not, ◌&&◌, if◌then◌else◌,
  count, lookup, insert, has, ok, string_eq, pair_eq, ◌==◌, arith, Option-cases, inl, inr, refl,
  lookup-insert, lookup-insert_self,
}
use tutorial_dealfinder.Licensing.{may_store}
use tutorial_dealfinder.Userstore.{
  Offer, Watch, Catalog, Watchlist, watched_count, merged, upsert, add_offer, add_watch,
}

-- a write under a key of the user adds at most one row to the user's, and none if the key is there
count-insert :
    (watches : Watchlist) (user offer_id : String) (row : Watch)
    → watched_count (insert watches (user, offer_id) row) user ≡ (
        if has watches (user, offer_id)
        then watched_count watches user
        else watched_count watches user + 1)
unfolding watched_count insert count lookup
count-insert [] user offer_id row = ground (arith, string_eq.same_iff user user)
count-insert ((k, w) ∷ watches) user offer_id row =
    ground (arith, count-insert watches user offer_id row)

merged-offer :
    (old : Option Watch) (row : Watch)
    → ((merged old row).offer ≡ row.offer) × ((merged old row).target_price ≡ row.target_price)
unfolding merged
merged-offer none row = (refl, refl)
merged-offer (some old) row = (refl, refl)

-- What a successful `add_watch` means: the offer is in the tenant's catalog and may be stored; the
-- user's row for it now has the catalog's data and the target asked for; every other row, of this
-- user and of all others, is as it was; and a user within the limit of 200 stays within it.
pub add_watch_lem :
    (catalog : Catalog) (watches left : Watchlist) (user tenant offer_id : String)
    (target : Option ℕ) (now : ℕ)
    → add_watch catalog watches user tenant offer_id target now ≡ ok left
    → ((offer : Offer) × (lookup catalog (tenant, offer_id) ≡ some offer)
        × (may_store offer.source ≡ true)
        × ((w : Watch) × (lookup left (user, offer_id) ≡ some w)
            × (w.offer ≡ offer)
            × (w.target_price ≡ target)))
      × ((key : String × String)
          → ((user, offer_id) == key) ≡ false
          → lookup left key ≡ lookup watches key)
      × (watched_count watches user ≤ 200 → watched_count left user ≤ 200)
unfolding add_watch add_offer upsert
add_watch_lem catalog watches left user tenant offer_id target now h =
    elim (Option-cases (lookup catalog (tenant, offer_id))) [
      | inl e ↦ ground (arith, h, e)
      | inr (offer, e) ↦
          let row : Watch = record {
            tenant_id = tenant;
            offer = offer;
            target_price = target;
            created_at = now;
          } in
          let final = merged (lookup watches (user, offer_id)) row in
          let stored : may_store offer.source ≡ true = ground (arith, h, e) in
          let room : (not (has watches (user, offer_id)) && leb 200 (watched_count watches user))
              ≡ false =
            ground (arith, h, e) in
          let same : insert watches (user, offer_id) final ≡ left = ground (arith, h, e) in
          rw (← same) (
            (
              offer,
              e,
              stored,
              (
                final,
                lookup-insert_self watches (user, offer_id) final,
                (merged-offer (lookup watches (user, offer_id)) row).0,
                (merged-offer (lookup watches (user, offer_id)) row).1,
              ),
            ),
            (λ key other. ground (arith, other, lookup-insert watches (user, offer_id) key final)),
            (λ bound. ground (arith, bound, room, count-insert watches user offer_id final)),
          )
    ]
