-- ===== src/Sources/Ebay.antt =====
-- `EbaySource` of dealfinder/live_sources.py: its token and its search. A time is a second of
-- `time.monotonic()`. What each request gives, or raises, is an argument.
pub mod Token
use Prim.Native.String.{◌++◌ as str_append}
use tutorial_dealfinder.Base.{
  ◌-◌, occurs, zero, ◌+◌, ◌-◌, str_len, get_or, suc, ℕ, String, Bool, not, ◌&&◌, ◌||◌, ◌==◌, Option,
  none, some, List, [], ◌∷◌, ◌++◌, nat_beq, leb, ltb, if◌then◌else◌, Result, ok, raise, ◌>>=◌, ◌>>◌,
  string_eq, nat_eq,
}
use tutorial_dealfinder.Sources.{
  Json, text, array, object, nil, end, Error, Product, Reply, Builtins, ◌or◌, get_else, get,
  iterate, as_text, as_option, json_of, prefix, parse_price, when_priced, list_items, is_set,
}

-- `_token`, and `_expires`, the time up to which it is used
pub record Session : Type 0 where
  pub token : Option String
  pub expires : ℕ

-- `__init__`
abbrev pub signed_out : Session
signed_out = record { token = none; expires = 0 }

-- what the token endpoint grants: `access_token` and `expires_in`
pub record Grant : Type 0 where
  pub access_token : String
  pub expires_in : Option ℕ

-- `time.monotonic() + j.get("expires_in", 7200) - 60`, at the time `now`; a time that would be
-- negative is none that the clock reaches, so it is 0
abbrev pub expiry : ℕ → Option ℕ → ℕ
expiry now none = now + 7200 - 60
expiry now (some seconds) = now + seconds - 60

-- `if self._token and time.monotonic() < self._expires`
abbrev pub kept_token : Option String → ℕ → ℕ → Option String
kept_token none expires now = none
kept_token (some token) expires now =
    if not (token == "") && ltb now expires then some token else none

-- the session after the request, at the time `later`
abbrev pub renewed : Session → ℕ → Result Error Grant → Session × Result Error String
renewed s later (raise e) = (s, raise e)
renewed s later (ok grant) = (
  record { token = some grant.access_token; expires = expiry later grant.expires_in },
  ok grant.access_token,
)

-- the token that is kept, or a new one
abbrev pub hand_out :
    Option String → Session → ℕ → Result Error Grant → Session × Result Error String
hand_out none s later request = renewed s later request
hand_out (some token) s later request = (s, ok token)

-- `_get_token`. The clock is read at `now` and, after the request, at `later`; the request raises
-- or gives a grant.
unfoldable pub get_token : Session → ℕ → ℕ → Result Error Grant → Session × Result Error String
get_token s now later request = hand_out (kept_token s.token s.expires now) s later request

-- `available`
unfoldable pub is_available : (String → Option String) → Bool
is_available env = is_set (env "EBAY_APP_ID") && is_set (env "EBAY_CERT_ID")

abbrev pub skip : ℕ → String → String
skip zero s = s
skip (suc n) String.[] = String.[]
skip (suc n) (String.◌∷◌ c s) = skip n s

-- `s[-n:]`, of n > 0
abbrev pub suffix : ℕ → String → String
suffix n s = if leb (str_len s) n then s else skip (str_len s - n) s

module _ (b : Builtins) where
  -- `is_sandbox`
  unfoldable pub is_sandbox : (String → Option String) → Bool
  is_sandbox env =
      b.lower (get_or (env "EBAY_ENV") "") == "sandbox"
      || occurs "SBX" (get_or (env "EBAY_APP_ID") "")

  -- an item of `search`
  unfoldable pub ebay_item : String → Json → Result Error (Option Product)
  ebay_item query it = do
    given ← get it "price"
    value ← get (given or object end) "value"
    when_priced (parse_price b value) λ price. do
      given_condition ← get it "condition"
      item_id ← get_else it "itemId" (text "")
      name ← get it "title"
      title ← as_text (name or text query)
      given_currency ← get_else (given or object end) "currency" (text "USD")
      currency ← as_text given_currency
      address ← get it "itemWebUrl"
      url ← as_text (address or text "")
      image ← get it "image"
      image_address ← get (image or object end) "imageUrl"
      image_url ← as_option image_address
      ok (
          some (record {
            id = str_append "ebay-" (suffix 40 (b.str item_id));
            title = prefix 120 title;
            brand = none;
            category = "product";
            price = price;
            currency = currency;
            url = url;
            source = str_append "eBay:" (b.str (given_condition or text "eBay"));
            image_url = image_url;
            sku = none;
            regular_price = none;
          }))

  -- the products of the reply to a search
  unfoldable pub ebay_products : String → Reply → Result Error (List Product)
  ebay_products query r = if not (nat_beq r.status_code 200) then ok [] else do
    body ← json_of r
    found ← get body "itemSummaries"
    vs ← iterate (found or array nil)
    list_items (ebay_item query) vs

  -- `search`, with the session after it
  unfoldable pub ebay_search :
      (String → Option String)
      → Session
      → ℕ
      → ℕ
      → Result Error Grant
      → (String → Result Error Reply)
      → String
      → Session × Result Error (List Product)
  ebay_search env s now later request fetch query =
      if not (is_available env)
      then (s, ok [])
      else let (s', token) = get_token s now later request in
        (s', token >>= λ bearer. fetch bearer >>= λ r. ebay_products query r)
