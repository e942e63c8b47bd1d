-- ===== src/Userstore.antt =====
-- The watchlist of dealfinder/userstore.py. A table is an association list by its primary key; the
-- scope that dealfinder/db.py binds lets a transaction see the rows of its user and, in the catalog,
-- of its tenant. Prices are whole cents. The transactions of one user are serialized by a lock. The
-- table's check of the target price is not modelled.
pub mod Watches
mod Tests
use tutorial_dealfinder.Base.{
  ℕ, String, Bool, true, false, Option, none, some, List, [], ◌∷◌, map, leb, not, ◌&&◌,
  if◌then◌else◌, keep, length, count, Dict, lookup, insert, remove, has, Result, ok, raise,
  string_eq, pair_eq, Comparable, ◌==◌,
}
use tutorial_dealfinder.Licensing.{may_store}

-- `WATCH_LIMIT`
abbrev pub watch_limit : ℕ
watch_limit = 200

-- What the code reads of a row of `offers`.
pub record Offer : Type 0 where
  pub title : String
  pub url : Option String
  pub image_url : Option String
  pub source : Option String
  pub price : ℕ
  pub fetched_at : ℕ

-- A row of `watchlist`, but for its key.
pub record Watch : Type 0 where
  pub tenant_id : String
  pub offer : Offer
  pub target_price : Option ℕ
  pub created_at : ℕ

-- `offers`, by tenant and id
abbrev pub Catalog : Type 0
Catalog = Dict (String × String) Offer

-- `watchlist`, by user and offer
abbrev pub Watchlist : Type 0
Watchlist = Dict (String × String) Watch

pub data Error : Type 0 where
  lookup_error limit_exceeded : Error

-- `count(*)` of the rows that the user sees
unfoldable pub watched_count : Watchlist → String → ℕ
watched_count watches user = count (λ e. e.0.0 == user) watches

-- the row that `ON CONFLICT DO UPDATE` leaves: one that is there keeps its tenant and `created_at`
unfoldable pub merged : Option Watch → Watch → Watch
merged none row = row
merged (some old) row = record row { tenant_id = old.tenant_id; created_at = old.created_at }

-- `INSERT ... ON CONFLICT DO UPDATE`
unfoldable pub upsert : Watchlist → String × String → Watch → Watchlist
upsert watches key row = insert watches key (merged (lookup watches key) row)

-- the part of `add_watch` from the lock on
unfoldable pub add_offer :
    Watchlist → String → String → String → Offer → Option ℕ → ℕ → Result Error Watchlist
add_offer watches user tenant offer_id offer target now =
    let row : Watch = record {
      tenant_id = tenant;
      offer = offer;
      target_price = target;
      created_at = now;
    } in
    if not (has watches (user, offer_id)) && leb watch_limit (watched_count watches user)
    then raise limit_exceeded
    else ok (upsert watches (user, offer_id) row)

-- `add_watch`, at the time `now` of the transaction
unfoldable pub add_watch :
    Catalog → Watchlist → String → String → String → Option ℕ → ℕ → Result Error Watchlist
add_watch catalog watches user tenant offer_id target now =
    elim (lookup catalog (tenant, offer_id)) [
      | none ↦ raise lookup_error
      | some offer ↦
          if may_store offer.source
          then add_offer watches user tenant offer_id offer target now
          else raise lookup_error
    ]

-- `remove_watch`: the table left, and `rowcount`
unfoldable pub remove_watch : Watchlist → String → String → Watchlist × ℕ
remove_watch watches user offer_id =
    (remove watches (user, offer_id), if has watches (user, offer_id) then 1 else 0)

-- `SAVED_SEARCH_LIMIT`
abbrev pub saved_search_limit : ℕ
saved_search_limit = 50

-- A row of `saved_searches`; the database makes up its id.
pub record SavedSearch : Type 0 where
  pub id : String
  pub user_id : String
  pub query : String
  pub max_price : Option ℕ

-- `add_saved_search`, with the id that the new row is given
unfoldable pub add_saved_search :
    List SavedSearch → String → String → Option ℕ → String → Result Error (List SavedSearch)
add_saved_search saved user query max_price id =
    if leb saved_search_limit (count (λ s. s.user_id == user) saved)
    then raise limit_exceeded
    else ok (record { id = id; user_id = user; query = query; max_price = max_price } ∷ saved)

-- `list_saved_searches`, newest first
unfoldable pub list_saved_searches : List SavedSearch → String → List SavedSearch
list_saved_searches saved user = keep (λ s. s.user_id == user) saved

-- `remove_saved_search`: the rows left, and `rowcount`
unfoldable pub remove_saved_search : List SavedSearch → String → String → List SavedSearch × ℕ
remove_saved_search saved user id = (
  keep (λ s. not (s.user_id == user && s.id == id)) saved,
  count (λ s. s.user_id == user && s.id == id) saved,
)
