-- ===== src/Sources.antt =====
-- dealfinder/live_sources.py: JSON values, and what the connectors share. A number is whole cents,
-- so `round(price, 2)` changes nothing, and NaN is left out. Python's `str` of a value, `float` of a
-- text, `str.split` and the like are fields of `Builtins`.
pub mod Listing
pub mod Retail
pub mod Feeds
pub mod Bestbuy
pub mod Ebay
pub mod Enabled
pub mod Entries
pub mod Listed
mod Tests
use Prim.Native.Char.{code}
use Prim.Native.Nat.{compare}
use Prim.Native.String.{◌++◌ as str_append}
use tutorial_dealfinder.Base.{
  ℕ, zero, suc, String, Bool, true, false, not, ◌==◌, Option, none, some, List, [], ◌∷◌, nat_beq,
  if◌then◌else◌, Result, ok, raise, ◌>>=◌, ◌>>◌, string_eq, Amount, cents, debt,
}

mutual
  pub data Json : Type 0 where
    null : Json
    boolean : Bool → Json
    number : Amount → Json
    text : String → Json
    array : Items → Json
    object : Fields → Json

  pub data Items : Type 0 where
    nil : Items
    cons : Json → Items → Items

  pub data Fields : Type 0 where
    end : Fields
    field : String → Json → Fields → Fields

-- the exceptions that the connectors and their caller tell apart; `bad_reply` stands for what Python
-- or pydantic raises where a value is of another type than the code takes it for
pub data Error : Type 0 where
  bad_reply unset no_lookup : Error
  not_a_sku unknown_source served_by_the_box not_a_launch_source : String → Error

pub record Product : Type 0 where
  pub id : String
  pub title : String
  pub brand : Option String
  pub category : String
  pub price : Amount
  pub currency : String
  pub url : String
  pub source : String
  pub image_url : Option String
  pub sku : Option String
  pub regular_price : Option Amount

-- `httpx.Response`; its body is nothing where `json()` raises
pub record Reply : Type 0 where
  pub status_code : ℕ
  pub body : Option Json

pub record Builtins : Type 0 where
  -- `str(v)`, `float(s)`, `s.split()`, `s.split(",")`, `s.strip()`, `s.lower()`, `s.upper()`
  pub str : Json → String
  pub float : String → Option Amount
  pub split : String → List String
  pub split_commas : String → List String
  pub strip : String → String
  pub lower : String → String
  pub upper : String → String

-- a number that is zero
abbrev pub is_zero : Amount → Bool
is_zero (cents n) = nat_beq n 0
is_zero (debt n) = nat_beq n 0

-- `bool(v)`
abbrev pub truthy : Json → Bool
truthy null = false
truthy (boolean b) = b
truthy (number a) = not (is_zero a)
truthy (text s) = not (s == "")
truthy (array nil) = false
truthy (array (cons v vs)) = true
truthy (object end) = false
truthy (object (field k v vs)) = true

infixr 30 ◌or◌
-- `v or w`
abbrev pub ◌or◌ : Json → Json → Json
v or w = if truthy v then v else w

abbrev pub lookup_field : Fields → String → Option Json
lookup_field end k = none
lookup_field (field j v vs) k = if j == k then some v else lookup_field vs k

-- `v.get(k, d)`
abbrev pub get_else : Json → String → Json → Result Error Json
get_else (object vs) k d = elim (lookup_field vs k) [ none ↦ ok d | some v ↦ ok v ]
get_else null k d = raise bad_reply
get_else (boolean b) k d = raise bad_reply
get_else (number a) k d = raise bad_reply
get_else (text s) k d = raise bad_reply
get_else (array vs) k d = raise bad_reply

-- `v.get(k)`
abbrev pub get : Json → String → Result Error Json
get v k = get_else v k null

abbrev pub items_of : Items → List Json
items_of nil = []
items_of (cons v vs) = v ∷ items_of vs

abbrev pub keys_of : Fields → List Json
keys_of end = []
keys_of (field k v vs) = text k ∷ keys_of vs

abbrev pub characters_of : String → List Json
characters_of String.[] = []
characters_of (String.◌∷◌ c s) = text (String.◌∷◌ c String.[]) ∷ characters_of s

-- what a loop over `v` takes
abbrev pub iterate : Json → Result Error (List Json)
iterate (array vs) = ok (items_of vs)
iterate (object vs) = ok (keys_of vs)
iterate (text s) = ok (characters_of s)
iterate null = raise bad_reply
iterate (boolean b) = raise bad_reply
iterate (number a) = raise bad_reply

-- `v[0]`
abbrev pub index_0 : Json → Result Error Json
index_0 (array (cons v vs)) = ok v
index_0 (text (String.◌∷◌ c s)) = ok (text (String.◌∷◌ c String.[]))
index_0 (array nil) = raise bad_reply
index_0 (text String.[]) = raise bad_reply
index_0 null = raise bad_reply
index_0 (boolean b) = raise bad_reply
index_0 (number a) = raise bad_reply
index_0 (object vs) = raise bad_reply

-- `isinstance(v, list)`
abbrev pub is_list : Json → Bool
is_list (array vs) = true
is_list null = false
is_list (boolean b) = false
is_list (number a) = false
is_list (text s) = false
is_list (object vs) = false

-- `isinstance(v, dict)`
abbrev pub is_dict : Json → Bool
is_dict (object vs) = true
is_dict null = false
is_dict (boolean b) = false
is_dict (number a) = false
is_dict (text s) = false
is_dict (array vs) = false

-- a value that has to be a text: a method of `str` is called on it, or pydantic validates it
abbrev pub as_text : Json → Result Error String
as_text (text s) = ok s
as_text null = raise bad_reply
as_text (boolean b) = raise bad_reply
as_text (number a) = raise bad_reply
as_text (array vs) = raise bad_reply
as_text (object vs) = raise bad_reply

-- a field that pydantic takes as a text or `None`
abbrev pub as_option : Json → Result Error (Option String)
as_option null = ok none
as_option (text s) = ok (some s)
as_option (boolean b) = raise bad_reply
as_option (number a) = raise bad_reply
as_option (array vs) = raise bad_reply
as_option (object vs) = raise bad_reply

-- `r.json()`
abbrev pub json_of : Reply → Result Error Json
json_of r = elim r.body [ none ↦ raise bad_reply | some v ↦ ok v ]

-- `s[:n]`
unfoldable pub prefix : ℕ → String → String
prefix zero s = String.[]
prefix (suc n) String.[] = String.[]
prefix (suc n) (String.◌∷◌ c s) = String.◌∷◌ c (prefix n s)

-- `s.replace(c, "")` of a character
unfoldable pub without : ℕ → String → String
without d String.[] = String.[]
without d (String.◌∷◌ c s) =
    let rest = without d s in if nat_beq (code c) d then rest else String.◌∷◌ c rest

-- the first of a list; there is none of an empty one
abbrev pub first_word : List String → Option String
first_word [] = none
first_word (w ∷ ws) = some w

abbrev pub and_float : (String → Option Amount) → Option String → Option Amount
and_float float none = none
and_float float (some s) = float s

-- `_f`
unfoldable pub parse_price : Builtins → Json → Option Amount
parse_price b v = and_float b.float (first_word (b.split (without b',' (without b'$' (b.str v)))))

-- `if not price: continue`
abbrev pub when_priced :
    Option Amount → (Amount → Result Error (Option Product)) → Result Error (Option Product)
when_priced none f = ok none
when_priced (some a) f = if is_zero a then ok none else f a

abbrev pub add_product : Option Product → List Product → List Product
add_product none ps = ps
add_product (some p) ps = p ∷ ps

-- the loop of a connector: an item is listed or skipped
unfoldable pub list_items :
    (Json → Result Error (Option Product)) → List Json → Result Error (List Product)
list_items read [] = ok []
list_items read (v ∷ vs) = do p ← read v; ps ← list_items read vs; ok (add_product p ps)

-- `os.getenv(k) == s`
abbrev pub is_text : Option String → String → Bool
is_text none s = false
is_text (some t) s = t == s

-- `bool(os.getenv(k))`
abbrev pub is_set : Option String → Bool
is_set none = false
is_set (some s) = not (s == "")

-- `_paid_ok`
unfoldable pub paid_ok : (String → Option String) → Bool
paid_ok env = is_text (env "DEALFINDER_ENABLE_PAID_SOURCES") "1"

-- the key in the environment, if it is not empty
abbrev pub set_key : Option String → Option String
set_key none = none
set_key (some s) = if s == "" then none else some s
