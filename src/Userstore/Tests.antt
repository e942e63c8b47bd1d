-- ===== src/Userstore/Tests.antt =====
-- Runs of dealfinder/userstore.py, and the theorem at a concrete input.
use tutorial_dealfinder.Base.{
  ◌≤◌, ◌≡◌, String, true, false, none, some, List, [], ◌∷◌, lookup, insert, count, keep, ok, raise,
  refl, string_eq, pair_eq, ◌==◌,
}
use tutorial_dealfinder.Licensing.{may_store, policy_for, source_key, before_colon}
use tutorial_dealfinder.Userstore.{
  Offer, Watch, Catalog, Watchlist, watched_count, merged, upsert, add_offer, add_watch,
  lookup_error, SavedSearch, list_saved_searches, remove_saved_search, add_saved_search,
}
use tutorial_dealfinder.Userstore.Watches.{add_watch_lem}

program : Unit {0}
unfolding may_store policy_for source_key before_colon watched_count merged upsert add_offer
    add_watch lookup insert count list_saved_searches remove_saved_search add_saved_search keep
program = tt

abbrev tv : Offer
tv = record {
  title = "tv";
  url = none;
  image_url = none;
  source = some "BestBuy:sale";
  price = 30000;
  fetched_at = 1000;
}

abbrev catalog : Catalog
catalog = (("public", "tv"), tv) ∷ (("public", "old"), record tv { source = some "eBay:Used" }) ∷ []

abbrev watched : Watch
watched = record { tenant_id = "public"; offer = tv; target_price = some 25000; created_at = 2000 }

abbrev empty : Watchlist
empty = []

abbrev left : Watchlist
left = (("ann", "tv"), watched) ∷ []

unlicensed : add_watch catalog [] "ann" "public" "old" none 2000 ≡ raise lookup_error
unfolding program
unlicensed = refl

other_tenant : add_watch catalog [] "ann" "acme" "tv" none 2000 ≡ raise lookup_error
unfolding program
other_tenant = refl

abbrev one_search : List SavedSearch
one_search = record { id = "s1"; user_id = "ann"; query = "tv"; max_price = none } ∷ []

saved_round_trip : add_saved_search [] "ann" "tv" none "s1" ≡ ok one_search
unfolding program
saved_round_trip = refl

not_the_owner : remove_saved_search one_search "bob" "s1" ≡ (one_search, 0)
unfolding program
not_the_owner = refl

added : add_watch catalog empty "ann" "public" "tv" (some 25000) 2000 ≡ ok left
unfolding program
added = refl

add_watch_lem_example :
    ((offer : Offer) × (lookup catalog ("public", "tv") ≡ some offer)
      × (may_store offer.source ≡ true)
      × ((w : Watch) × (lookup left ("ann", "tv") ≡ some w)
          × (w.offer ≡ offer)
          × (w.target_price ≡ some 25000)))
    × ((key : String × String)
        → (("ann", "tv") == key) ≡ false
        → lookup left key ≡ lookup empty key)
    × (watched_count empty "ann" ≤ 200 → watched_count left "ann" ≤ 200)
add_watch_lem_example = add_watch_lem catalog empty left "ann" "public" "tv" (some 25000) 2000 added
