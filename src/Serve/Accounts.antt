-- ===== src/Serve/Accounts.antt =====
-- The account routes of dealfinder/serve.py over dealfinder/userstore.py, for a signed-in user, and the
-- checks of what a client may send. Prices are whole cents. The parsing of a UUID is a parameter.
pub mod Routes
use Prim.Native.Char.{code}
use tutorial_dealfinder.Base.{
  ℕ, String, Bool, true, false, not, ◌&&◌, ◌||◌, Option, none, some, List, [], ◌∷◌, leb, ltb,
  nat_beq, str_len, if◌then◌else◌, Result, ok, raise, string_eq, pair_eq, has, lookup,
}
use tutorial_dealfinder.Userstore.{
  Catalog, Watchlist, SavedSearch, Error, lookup_error, limit_exceeded, add_watch, remove_watch,
  add_saved_search, remove_saved_search,
}

-- An HTTP status, as the routes name it.
pub data Status : Type 0 where
  created removed not_found conflict unprocessable unavailable : Status

-- `"\x00" in text`
unfoldable pub has_nul : String → Bool
has_nul String.[] = false
has_nul (String.◌∷◌ c s) = nat_beq (code c) 0 || has_nul s

-- `OfferId`
unfoldable pub valid_offer_id : String → Bool
valid_offer_id s = leb 1 (str_len s) && leb (str_len s) 200 && not (has_nul s)

-- `Money | None`: positive and below a million dollars
unfoldable pub valid_money : Option ℕ → Bool
valid_money none = true
valid_money (some m) = ltb 0 m && ltb m 100000000

pub record WatchIn : Type 0 where
  pub offer_id : String
  pub target_price : Option ℕ

-- what FastAPI checks of a `WatchIn`
unfoldable pub valid_watch : WatchIn → Bool
valid_watch item = valid_offer_id item.offer_id && valid_money item.target_price

pub record SavedSearchIn : Type 0 where
  pub query : String
  pub max_price : Option ℕ

-- what FastAPI checks of a `SavedSearchIn`, once the query is stripped
unfoldable pub valid_saved_search : SavedSearchIn → Bool
valid_saved_search body = valid_offer_id body.query && valid_money body.max_price

-- `except LookupError`, `except LimitExceeded`
unfoldable pub status_of : Error → Status
status_of lookup_error = not_found
status_of limit_exceeded = conflict

-- the watchlist and the answer after a call of `add_watch`
unfoldable pub added : Watchlist → Result Error Watchlist → Watchlist × Status
added watches (ok watches') = (watches', created)
added watches (raise e) = (watches, status_of e)

-- `watchlist_add`, with `_DB` as `_require_db` finds it
unfoldable pub watchlist_add :
    Bool → Catalog → Watchlist → String → String → WatchIn → ℕ → Watchlist × Status
watchlist_add db_on catalog watches user tenant item now =
    if not (valid_watch item)
    then (watches, unprocessable)
    else if not db_on
    then (watches, unavailable)
    else added watches (add_watch catalog watches user tenant item.offer_id item.target_price now)

-- the answer after a deletion, of the rows left and `rowcount`
unfoldable pub deleted : {A : Type 0} → A × ℕ → A × Status
deleted (rows, n) = (rows, if nat_beq n 0 then not_found else removed)

-- whether the text has a '/'
unfoldable pub has_slash : String → Bool
has_slash String.[] = false
has_slash (String.◌∷◌ c s) = nat_beq (code c) b'/' || has_slash s

-- The route of `watchlist_remove`. The router decodes the path first and matches `{offer_id}` with no
-- '/', so such an id is its own 404 and never reaches the handler.
unfoldable pub watchlist_remove : Bool → Watchlist → String → String → Watchlist × Status
watchlist_remove db_on watches user offer_id =
    if has_slash offer_id
    then (watches, not_found)
    else if has_nul offer_id
    then (watches, not_found)
    else if not db_on
    then (watches, unavailable)
    else deleted (remove_watch watches user offer_id)

-- the rows and the answer after a call of `add_saved_search`
unfoldable pub saved_after :
    List SavedSearch → Result Error (List SavedSearch) → List SavedSearch × Status
saved_after saved (ok saved') = (saved', created)
saved_after saved (raise e) = (saved, status_of e)

-- `saved_search_add`, with the id that the new row is given
unfoldable pub saved_search_add :
    Bool → List SavedSearch → String → SavedSearchIn → String → List SavedSearch × Status
saved_search_add db_on saved user body id =
    if not (valid_saved_search body)
    then (saved, unprocessable)
    else if not db_on
    then (saved, unavailable)
    else saved_after saved (add_saved_search saved user body.query body.max_price id)

-- `saved_search_remove`; `is_uuid` is whether `uuid.UUID` accepts the text
unfoldable pub saved_search_remove :
    (String → Bool) → Bool → List SavedSearch → String → String → List SavedSearch × Status
saved_search_remove is_uuid db_on saved user id =
    if not (is_uuid id)
    then (saved, not_found)
    else if not db_on
    then (saved, unavailable)
    else deleted (remove_saved_search saved user id)
