-- ===== src/Serve/Accounts/Routes.antt =====
-- How the watchlist routes of dealfinder/serve.py fit together.
use tutorial_dealfinder.Base.{
  ℕ, ◌≡◌, ◌⊎◌, String, Bool, true, false, not, ◌&&◌, Option, Result, ok, raise, leb, string_eq,
  pair_eq, has, lookup, remove, lookup-insert_self, lookup-remove_self, arith, refl, subst,
  Bool-cases, Option-cases, Result-cases, inl, inr,
}
use tutorial_dealfinder.Userstore.{
  Catalog, Watchlist, Error, lookup_error, limit_exceeded, add_offer, add_watch, upsert, merged,
  remove_watch, Offer, watch_limit, watched_count,
}
use tutorial_dealfinder.Licensing.{may_store}
use tutorial_dealfinder.Serve.Accounts.{
  created, removed, not_found, has_nul, has_slash, valid_offer_id, valid_watch, WatchIn, status_of,
  added, watchlist_add, deleted, watchlist_remove,
}

added-kept :
    (watches : Watchlist) (r : Result Error Watchlist)
    → ((added watches r).1 ≡ created) ⊎ ((added watches r).0 ≡ watches)
unfolding added status_of
added-kept watches (ok watches') = inl refl
added-kept watches (raise e) = inr refl

valid-nul : (item : WatchIn) → valid_watch item ≡ true → has_nul item.offer_id ≡ false
unfolding valid_watch valid_offer_id
valid-nul item h = ground (arith, h)

ok_inj : (a b : Watchlist) → ◌≡◌ {A = Result Error Watchlist} (ok a) (ok b) → a ≡ b
ok_inj a b h = cc

add_offer-has :
    (watches : Watchlist) (user tenant offer_id : String) (offer : Offer) (target : Option ℕ)
    (now : ℕ) (w : Watchlist)
    → add_offer watches user tenant offer_id offer target now ≡ ok w
    → has w (user, offer_id) ≡ true
unfolding add_offer upsert
add_offer-has watches user tenant offer_id offer target now w h =
    let key : String × String = (user, offer_id) in
    elim (Bool-cases (not (has watches key) && leb watch_limit (watched_count watches user))) [
      | inl e ↦ absurd (ground (arith, rw (e, add_offer) at h))
      | inr e ↦
          let same = ok_inj _ w (rw (e, add_offer) at h) in
          subst (λ x. has x key ≡ true) same
            (rw (lookup-insert_self watches key (merged (lookup watches key) _)) refl)
    ]

add_watch-has :
    (catalog : Catalog) (watches : Watchlist) (user tenant offer_id : String) (target : Option ℕ)
    (now : ℕ) (w : Watchlist)
    → add_watch catalog watches user tenant offer_id target now ≡ ok w
    → has w (user, offer_id) ≡ true
unfolding add_watch
add_watch-has catalog watches user tenant offer_id target now w h =
    elim (Option-cases (lookup catalog (tenant, offer_id))) [
      | inl e ↦ absurd (ground (arith, rw (e, add_watch) at h))
      | inr (offer, e) ↦ elim (Bool-cases (may_store offer.source)) [
        | inl f ↦
            add_offer-has watches user tenant offer_id offer target now w
              (rw (e, f, add_watch) at h)
        | inr f ↦ absurd (ground (arith, rw (e, f, add_watch) at h))
      ]
    ]

status_of-created : (e : Error) → status_of e ≡ created → ⊥
unfolding status_of
status_of-created lookup_error h = cc
status_of-created limit_exceeded h = cc

-- a watch that is added is there
added-has :
    (catalog : Catalog) (watches : Watchlist) (user tenant offer_id : String) (target : Option ℕ)
    (now : ℕ)
    → let r = add_watch catalog watches user tenant offer_id target now in
      (added watches r).1 ≡ created → has (added watches r).0 (user, offer_id) ≡ true
unfolding added
added-has catalog watches user tenant offer_id target now h =
    elim (Result-cases (add_watch catalog watches user tenant offer_id target now)) [
      | inl (w, e) ↦
          rw (e, added) (add_watch-has catalog watches user tenant offer_id target now w e)
      | inr (x, e) ↦ absurd (status_of-created x (rw (e, added) at h))
    ]

-- removing what is there answers so, takes it out, and answers that nothing is there from then on
removed-twice :
    (watches : Watchlist) (user offer_id : String)
    → has_slash offer_id ≡ false
    → has_nul offer_id ≡ false
    → has watches (user, offer_id) ≡ true
    → let (w, s) = watchlist_remove true watches user offer_id in
      (s ≡ removed)
      × (has w (user, offer_id) ≡ false)
      × ((watchlist_remove true w user offer_id).1 ≡ not_found)
unfolding watchlist_remove deleted remove_watch
removed-twice watches user offer_id routed nul h =
    let key : String × String = (user, offer_id) in
    let gone : has (remove watches key) key ≡ false = rw (lookup-remove_self watches key) refl in
    rw (routed, nul, h) (refl, gone, rw gone refl)

unrouted :
    (watches : Watchlist) (user offer_id : String)
    → has_slash offer_id ≡ true
    → watchlist_remove true watches user offer_id ≡ (watches, not_found)
unfolding watchlist_remove
unrouted watches user offer_id slash = rw slash refl

-- Adding a watch either answers 201 or leaves the watchlist as it was. After a 201 the item is on the
-- user's list. Where its id has no '/', removing it then answers so and takes it off, and removing it
-- once more answers 404. Where its id has a '/', removing it answers 404 and leaves it there.
pub watchlist_routes_lem :
    (db_on : Bool) (catalog : Catalog) (watches : Watchlist) (user tenant : String) (item : WatchIn)
    (now : ℕ)
    → let (w, s) = watchlist_add db_on catalog watches user tenant item now in
      ((s ≡ created) ⊎ (w ≡ watches))
      × (s ≡ created
          → (has w (user, item.offer_id) ≡ true)
            × (has_slash item.offer_id ≡ false
                → let (w', s') = watchlist_remove true w user item.offer_id in
                  (s' ≡ removed)
                  × (has w' (user, item.offer_id) ≡ false)
                  × ((watchlist_remove true w' user item.offer_id).1 ≡ not_found))
            × (has_slash item.offer_id ≡ true
                → watchlist_remove true w user item.offer_id ≡ (w, not_found)))
unfolding watchlist_add
watchlist_routes_lem db_on catalog watches user tenant item now =
    let r = add_watch catalog watches user tenant item.offer_id item.target_price now in
    elim (Bool-cases (valid_watch item)) [
      | inr e ↦ rw (e, watchlist_add) (inr refl, λ h. absurd (cc))
      | inl e ↦ elim (Bool-cases db_on) [
        | inr f ↦ rw (e, f, watchlist_add) (inr refl, λ h. absurd (cc))
        | inl f ↦
            rw (e, f, watchlist_add)
              (
                added-kept watches r,
                λ h.
                    let there =
                      added-has catalog watches user tenant item.offer_id item.target_price now h in
                    (
                      there,
                      λ routed.
                          removed-twice (added watches r).0 user item.offer_id routed
                            (valid-nul item e) there,
                      λ slash. unrouted (added watches r).0 user item.offer_id slash,
                    ),
              )
      ]
    ]
