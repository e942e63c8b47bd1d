-- ===== src/Auth/Verify.antt =====
-- Token verification and the request's principal: the functions of dealfinder/auth.py below the
-- cache, and dealfinder/tenancy.py. PyJWT is a record of functions; the environment, the clock and
-- the network are arguments.
pub mod Access
pub mod Accounts
use Prim.Native.Char.{code}
use Prim.Native.String.{◌++◌ as str_append}
use tutorial_dealfinder.Base.{
  ℕ, zero, suc, String, Bool, true, false, not, ◌&&◌, Option, none, some, [], ◌∷◌, if◌then◌else◌,
  Dict, lookup, insert, get_or, Result, ok, raise, ◌>>=◌, string_eq, ◌==◌, nat_beq, has,
}
use tutorial_dealfinder.Auth.Jwks.{
  Jwks, empty, KeyError, unavailable, invalid_key, Reply, Wait, key_for,
}
use tutorial_dealfinder.Auth.Claims.{
  Error, http, validation_error, Scalar, null, text, other, Value, scalar, object, Claims, truthy,
  get, ◌or◌, role_from_claims, tenant_from_claims,
}

pub data DecodeError : Type 0 where
  expired_signature other_error : DecodeError

-- What the source uses of PyJWT.
pub record Jwt : Type 1 where
  pub Token : Type 0
  pub Key : Type 0
  pub KeySet : Type 0
  -- `ks[kid]`, nothing where it raises `KeyError`
  pub key_of : KeySet → Option String → Option Key
  -- `jwt.get_unverified_header(token).get("kid")`, nothing where it raises a `PyJWTError`
  pub unverified_kid : Token → Option (Option String)
  -- `jwt.decode(token, key, algorithms, audience, issuer)` at this issuer
  pub decode : Token → Key → String → Result DecodeError Claims

abbrev pub unavailable_error : Error
unavailable_error = http 503 "auth unavailable"

abbrev pub invalid_token : Error
invalid_token = http 401 "invalid token"

-- `url.rstrip("/")`
unfoldable pub rstrip_slash : String → String
rstrip_slash String.[] = ""
rstrip_slash (String.◌∷◌ c s) =
    let rest = rstrip_slash s in
    if rest == "" && nat_beq (code c) b'/' then "" else String.◌∷◌ c rest

-- `_supabase_url`, of the environment's `SUPABASE_URL`
unfoldable pub supabase_url : Option String → Result Error String
unfolding rstrip_slash
supabase_url none = raise unavailable_error
supabase_url (some url) = if url == "" then raise unavailable_error else ok (rstrip_slash url)

-- `jwks_url`
unfoldable pub jwks_url : Option String → Result Error String
jwks_url env = do url ← supabase_url env; ok (str_append url "/auth/v1/.well-known/jwks.json")

pub record User : Type 0 where
  pub id : String
  pub email : Option String
  pub role : String

pub record Principal : Type 0 where
  pub tenant_id : Value
  pub user_id : Value
  pub role : Value

-- `DEFAULT_TENANT`
abbrev pub default_tenant : Value
default_tenant = scalar (text "public")

-- a field of pydantic's type `str`
abbrev pub as_str : Value → Result Error String
as_str (scalar (text s)) = ok s
as_str _ = raise validation_error

-- a field of type `str | None`
abbrev pub as_optional_str : Value → Result Error (Option String)
as_optional_str (scalar null) = ok none
as_optional_str (scalar (text s)) = ok (some s)
as_optional_str _ = raise validation_error

-- `require_user`, from the verified claims on
unfoldable pub user_of : Claims → Result Error User
unfolding get truthy role_from_claims
user_of claims =
    let sub = get claims "sub" in
    if truthy sub
    then (do
      role ← role_from_claims claims
      id ← as_str sub
      email ← as_optional_str (get claims "email")
      name ← as_str role
      ok (record { id = id; email = email; role = name }))
    else raise (http 401 "token missing subject")

-- `current_principal`, from the verified claims on
unfoldable pub principal_of : Claims → Result Error Principal
unfolding tenant_from_claims role_from_claims get truthy
principal_of claims = do
  tenant ← tenant_from_claims claims
  role ← role_from_claims claims
  ok (record { tenant_id = tenant or default_tenant; user_id = get claims "sub"; role = role })

module _ (j : Jwt) where
  open j use {Token, Key, KeySet, key_of, unverified_kid, decode}

  -- `decode_claims`
  unfoldable pub decode_claims : Token → Key → String → Result Error Claims
  decode_claims token key issuer = elim (decode token key issuer) [
    | ok claims ↦ ok claims
    | raise expired_signature ↦ raise (http 401 "token expired")
    | raise other_error ↦ raise invalid_token
  ]

  -- `_key_from_set`, inside a `try` that turns a `PyJWTError` into a 401
  unfoldable pub key_from_set : Token → KeySet → Result Error Key
  key_from_set token keyset = elim (unverified_kid token) [
    | none ↦ raise invalid_token
    | some kid ↦ elim (key_of keyset kid) [ none ↦ raise invalid_token | some k ↦ ok k ]
  ]

  -- `verify_with_jwks`
  unfoldable pub verify_with_jwks : Token → KeySet → String → Result Error Claims
  unfolding key_from_set decode_claims
  verify_with_jwks token keyset issuer = do
    key ← key_from_set token keyset
    decode_claims token key issuer

  abbrev pub Caches : Type 0
  Caches = Dict String (Jwks KeySet)

  -- `_cache_for`
  abbrev pub cache_for : Caches → String → Jwks KeySet
  cache_for caches url = get_or (lookup caches url) empty

  -- the `except` clauses of `verify_token`
  abbrev pub as_http : Result KeyError Key → Result Error Key
  as_http (ok k) = ok k
  as_http (raise unavailable) = raise unavailable_error
  as_http (raise invalid_key) = raise invalid_token

  -- What surrounds a request: the environment, the test key set, the clock, and what a call of
  -- `key_for` meets.
  pub record World : Type 0 where
    pub env_url : Option String
    pub test_jwks : Option KeySet
    pub now : ℕ
    pub now' : ℕ
    pub later : Jwks KeySet
    pub wait : Wait KeySet

  -- the key of `verify_token` from the project's cache
  unfoldable pub cached_key : World → Caches → Token → Caches × Result Error Key
  cached_key w caches token = elim (jwks_url w.env_url) [
    | raise e ↦ (caches, raise e)
    | ok url ↦ elim (unverified_kid token) [
      | none ↦ (insert caches url (cache_for caches url), raise invalid_token)
      | some kid ↦
          let r = key_for key_of (cache_for caches url) kid w.now w.now' w.later w.wait in
          (insert caches url r.cache, as_http r.answer)
    ]
  ]

  -- the `try` of `verify_token`
  unfoldable pub signing_key : World → Caches → Token → Caches × Result Error Key
  signing_key w caches token = elim w.test_jwks [
    | some keyset ↦ (caches, key_from_set token keyset)
    | none ↦ cached_key w caches token
  ]

  -- `verify_token`
  unfoldable pub verify_token : World → Caches → Token → Caches × Result Error Claims
  verify_token w caches token = elim (supabase_url w.env_url) [
    | raise e ↦ (caches, raise e)
    | ok url ↦
        let (caches', key) = signing_key w caches token in
        (caches', do k ← key; decode_claims token k (str_append url "/auth/v1"))
  ]

  -- `require_user`
  unfoldable pub require_user : World → Caches → Token → Caches × Result Error User
  require_user w caches token =
      let (caches', verified) = verify_token w caches token in
      (caches', do claims ← verified; user_of claims)

  -- `current_principal`, with the optional bearer token
  unfoldable pub current_principal : World → Caches → Option Token → Caches × Result Error Principal
  current_principal w caches none = (
    caches,
    ok (record {
      tenant_id = default_tenant;
      user_id = scalar null;
      role = scalar (text "anonymous");
    }),
  )
  current_principal w caches (some token) =
      let (caches', verified) = verify_token w caches token in
      (caches', do claims ← verified; principal_of claims)

-- `require_role`
unfoldable pub require_role : String → User → Result Error User
require_role role user =
    if user.role == role
    then ok user
    else raise (http 403 (str_append "requires role '" (str_append role "'")))

-- `require_account`
unfoldable pub require_account : Principal → Result Error Principal
require_account who =
    if truthy who.user_id then ok who else raise (http 401 "sign in to use account features")
