-- ===== src/Shop/Ebay.antt =====
-- The "Also on eBay" box of dealfinder/shop.py and its cache, an `OrderedDict` with the oldest use
-- first. A time is a second of `time.monotonic()`. What eBay answers and what other threads did to the
-- cache during the call of eBay are arguments.
pub mod Freshness
use tutorial_dealfinder.Base.{
  after_colon, ◌==◌, ℕ, ◌+◌, ◌*◌, String, Bool, true, false, not, ◌&&◌, ◌||◌, Option, none, some,
  List, [], ◌∷◌, ◌++◌, map, ltb, nat_beq, if◌then◌else◌, length, take, Dict, lookup, remove,
  string_eq,
}
use Prim.Native.Char.{code}
use tutorial_dealfinder.Licensing.{before_colon}

-- `EBAY_CACHE_TTL_S`, `EBAY_FAILURE_TTL_S`, `_EBAY_CACHE_MAX`
abbrev pub cache_ttl : ℕ
cache_ttl = 900

abbrev pub failure_ttl : ℕ
failure_ttl = 60

abbrev pub cache_max : ℕ
cache_max = 256

-- What the box reads of a product that the eBay connector returns.
pub record Product : Type 0 where
  pub id : String
  pub title : String
  pub price : ℕ
  pub currency : String
  pub url : String
  pub source : String
  pub image_url : Option String

pub record Item : Type 0 where
  pub id : String
  pub title : String
  pub price : ℕ
  pub currency : String
  pub url : String
  pub condition : String
  pub image_url : Option String

-- `source.split(":", 1)[1] if ":" in source else ""` is `after_colon`
abbrev pub item_of : Product → Item
item_of p = record {
  id = p.id;
  title = p.title;
  price = p.price;
  currency = p.currency;
  url = p.url;
  condition = after_colon p.source;
  image_url = p.image_url;
}

-- `(at, items, ttl)`
pub record Entry : Type 0 where
  pub at : ℕ
  pub items : List Item
  pub ttl : ℕ

abbrev pub Cache : Type 0
Cache = Dict String Entry

-- `_ebay_enabled`, of what the connector says of itself and the environment's opt-in
unfoldable pub ebay_enabled : Bool → Bool → Option String → Bool
ebay_enabled available sandbox allow =
    available && (not sandbox || (elim allow [ none ↦ false | some s ↦ s == "1" ]))

-- `move_to_end`, of the entry that is there
abbrev pub move_to_end : Cache → String → Entry → Cache
move_to_end cache key e = remove cache key ++ (key, e) ∷ []

-- the block under the first lock: a fresh entry is used, and becomes the last
unfoldable pub peek : Cache → String → ℕ → Cache × Option (List Item)
peek cache key now = elim (lookup cache key) [
  | none ↦ (cache, none)
  | some e ↦
      if ltb now (e.at + e.ttl) then (move_to_end cache key e, some e.items) else (cache, none)
]

-- `while len(cache) > max: cache.popitem(last=False)`
unfoldable pub trim : Cache → Cache
trim [] = []
trim (e ∷ cache) =
    let rest = trim cache in if ltb cache_max (length (e ∷ cache)) then rest else e ∷ cache

-- the block under the second lock
unfoldable pub store : Cache → String → Entry → Cache
store cache key e = trim (move_to_end cache key e)

-- the entry for what eBay answered, nothing where the call raised
unfoldable pub entry_of : ℕ → ℕ → Option (List Product) → Entry
entry_of now limit none = record { at = now; items = []; ttl = failure_ttl }
entry_of now limit (some found) = record {
  at = now;
  items = map item_of (take limit found);
  ttl = cache_ttl;
}

pub record Box : Type 0 where
  pub enabled : Bool
  pub items : List Item

-- `ebay_box`, for the trimmed query in lower case as the key; `meanwhile` is what other threads do to
-- the cache between the two locks
unfoldable pub ebay_box :
    Bool → Cache → String → ℕ → ℕ → Option (List Product) → (Cache → Cache) → Cache × Box
ebay_box enabled cache key limit now answer meanwhile =
    if not enabled
    then (cache, record { enabled = false; items = [] })
    else (let (peeked, hit) = peek cache key now in
        elim hit [
          | some items ↦ (peeked, record { enabled = true; items = take limit items })
          | none ↦
              let e = entry_of now limit answer in
              (store (meanwhile peeked) key e, record { enabled = true; items = e.items })
        ])
