-- ===== src/Auth/Verify/Access.antt =====
-- `verify_token` of dealfinder/auth.py: what an accepted token means, and which errors a request can
-- meet.
use Prim.Native.String.{◌++◌ as str_append}
use tutorial_dealfinder.Base.{
  Result-cases, String, ◌≡◌, ◌⊎◌, inl, inr, Option, none, some, Result, ok, raise, ◌>>=◌, string_eq,
  arith, Option-cases, lookup-insert_self,
}
use tutorial_dealfinder.Auth.Jwks.{KeyError, unavailable, invalid_key, key_for, find_key}
use tutorial_dealfinder.Auth.Jwks.Keys.{key_for_sound}
use tutorial_dealfinder.Auth.Claims.{Error, http, Claims}
use tutorial_dealfinder.Auth.Verify.{
  Jwt, expired_signature, other_error, World, Caches, unavailable_error, invalid_token,
  supabase_url, jwks_url, decode_claims, key_from_set, cache_for, as_http, cached_key, signing_key,
  verify_token,
}

-- the errors that a caller of `verify_token` can see
abbrev pub IsAuthError : Error → Type 0
IsAuthError e = (e ≡ unavailable_error) ⊎ ((e ≡ invalid_token) ⊎ (e ≡ http 401 "token expired"))

module _ (j : Jwt) where
  open j use {Token, Key, KeySet, key_of, unverified_kid, decode}

  -- No project URL in the environment: an outage, whatever the token, and nothing is cached.
  pub verify_token_unset :
      (w : World j) (caches : Caches j) (token : Token)
      → (w.env_url ≡ none) ⊎ (w.env_url ≡ some "")
      → verify_token j w caches token ≡ (caches, raise unavailable_error)
  unfolding verify_token supabase_url
  verify_token_unset w caches token (inl h) = rw h
  verify_token_unset w caches token (inr h) = rw h

  supabase_url_errors :
      (env : Option String) (e : Error) → supabase_url env ≡ raise e → e ≡ unavailable_error
  unfolding supabase_url
  supabase_url_errors env e h = ground arith

  key_from_set_errors :
      (token : Token) (ks : KeySet) (e : Error)
      → key_from_set j token ks ≡ raise e
      → e ≡ invalid_token
  unfolding key_from_set
  key_from_set_errors token ks e h = ground arith

  as_http_errors : (r : Result KeyError Key) (e : Error) → as_http j r ≡ raise e → IsAuthError e
  as_http_errors (ok k) e h = cc
  as_http_errors (raise unavailable) e h = inl (ground arith)
  as_http_errors (raise invalid_key) e h = inr (inl (ground arith))

  cached_key_errors :
      (w : World j) (caches : Caches j) (token : Token) (e : Error)
      → (cached_key j w caches token).1 ≡ raise e
      → IsAuthError e
  unfolding cached_key jwks_url
  cached_key_errors w caches token e h = elim (Result-cases (supabase_url w.env_url)) [
    | inr (bad, q) ↦ inl (ground (arith, supabase_url_errors w.env_url bad q))
    | inl (url, q) ↦ elim (Option-cases (unverified_kid token)) [
      | inl malformed ↦ inr (inl (ground arith))
      | inr (kid, k) ↦
          as_http_errors
            (key_for key_of (cache_for j caches (str_append url "/auth/v1/.well-known/jwks.json"))
              kid w.now w.now' w.later w.wait).answer
            e (rw (q, k, cached_key, jwks_url) at h)
    ]
  ]

  signing_key_errors :
      (w : World j) (caches : Caches j) (token : Token) (e : Error)
      → (signing_key j w caches token).1 ≡ raise e
      → IsAuthError e
  unfolding signing_key
  signing_key_errors w caches token e h = elim (Option-cases w.test_jwks) [
    | inl production ↦ cached_key_errors w caches token e (rw (production, signing_key) at h)
    | inr (ks, testing) ↦
        inr (inl (key_from_set_errors token ks e (rw (testing, signing_key) at h)))
  ]

  decode_claims_errors :
      (token : Token) (key : Key) (issuer : String) (e : Error)
      → decode_claims j token key issuer ≡ raise e
      → IsAuthError e
  unfolding decode_claims
  decode_claims_errors token key issuer e h = elim (Result-cases (decode token key issuer)) [
    | inl (claims, q) ↦ absurd (ground arith)
    | inr (expired_signature, q) ↦ inr (inr (ground arith))
    | inr (other_error, q) ↦ inr (inl (ground arith))
  ]

  decode_claims_ok :
      (token : Token) (key : Key) (issuer : String) (claims : Claims)
      → decode_claims j token key issuer ≡ ok claims
      → decode token key issuer ≡ ok claims
  unfolding decode_claims
  decode_claims_ok token key issuer claims h = elim (Result-cases (decode token key issuer)) [
    | inl (claims', q) ↦ ground arith
    | inr (expired_signature, q) ↦ absurd (ground arith)
    | inr (other_error, q) ↦ absurd (ground arith)
  ]

  signing_key_production :
      (w : World j) (caches : Caches j) (token : Token)
      → w.test_jwks ≡ none
      → signing_key j w caches token ≡ cached_key j w caches token
  unfolding signing_key
  signing_key_production w caches token h = ground arith

  verify_token_production :
      (w : World j) (caches : Caches j) (token : Token) (url : String)
      → w.test_jwks ≡ none
      → supabase_url w.env_url ≡ ok url
      → verify_token j w caches token ≡ (
        (cached_key j w caches token).0,
        do k ← (cached_key j w caches token).1; decode_claims j token k (str_append url "/auth/v1"),
      )
  unfolding verify_token
  verify_token_production w caches token url h q =
      rw (q, verify_token, signing_key_production w caches token h)

  -- Every refusal is a 503 `auth unavailable`, a 401 `invalid token` or a 401 `token expired`.
  pub verify_token_errors :
      (w : World j) (caches : Caches j) (token : Token) (e : Error)
      → (verify_token j w caches token).1 ≡ raise e
      → IsAuthError e
  unfolding verify_token
  verify_token_errors w caches token e h = elim (Result-cases (supabase_url w.env_url)) [
    | inr (bad, q) ↦ inl (ground (arith, supabase_url_errors w.env_url bad q))
    | inl (url, q) ↦ elim (Result-cases (signing_key j w caches token).1) [
      | inr (bad, k) ↦ signing_key_errors w caches token e (ground (arith, k, q))
      | inl (key, k) ↦
          decode_claims_errors token key (str_append url "/auth/v1") e
            (rw (q, k, verify_token) at h)
    ]
  ]

  cached_key_sound :
      (w : World j) (caches : Caches j) (token : Token) (key : Key)
      → (cached_key j w caches token).1 ≡ ok key
      → (key_url : String) × (kid : Option String) × (jwks_url w.env_url ≡ ok key_url)
        × (unverified_kid token ≡ some kid)
        × ((find_key key_of (cache_for j caches key_url) kid ≡ some key)
            ⊎ (find_key key_of (cache_for j (cached_key j w caches token).0 key_url) kid
                ≡ some key))
  unfolding cached_key
  cached_key_sound w caches token key h = elim (Result-cases (jwks_url w.env_url)) [
    | inr (bad, q) ↦ absurd (ground arith)
    | inl (url, q) ↦ elim (Option-cases (unverified_kid token)) [
      | inl malformed ↦ absurd (ground arith)
      | inr (kid, k) ↦
          let c = cache_for j caches url in
          let r = key_for key_of c kid w.now w.now' w.later w.wait in
          (
            url,
            kid,
            q,
            k,
            elim (key_for_sound key_of c w.later kid w.now w.now' w.wait key
                (as_http_ok r.answer key (rw (q, k, cached_key) at h))) [
                  | inl before ↦ inl before
                  | inr later ↦
                      inr (rw (q, k, cached_key, lookup-insert_self caches url r.cache) later)
                ],
          )
    ]
  ]
    where
      as_http_ok : (a : Result KeyError Key) (k : Key) → as_http j a ≡ ok k → a ≡ ok k
      as_http_ok (ok x) k p = ground arith
      as_http_ok (raise unavailable) k p = cc
      as_http_ok (raise invalid_key) k p = cc

  verify_token_bad :
      (w : World j) (caches : Caches j) (token : Token) (bad : Error)
      → supabase_url w.env_url ≡ raise bad
      → (verify_token j w caches token).1 ≡ raise bad
  unfolding verify_token
  verify_token_bad w caches token bad q = rw (q, verify_token)

  -- Claims that are accepted are what PyJWT verified against this project's issuer, with a key that
  -- the project's cache held when the call began or holds when it ends.
  pub verify_token_sound :
      (w : World j) (caches : Caches j) (token : Token) (claims : Claims)
      → w.test_jwks ≡ none
      → (verify_token j w caches token).1 ≡ ok claims
      → (url : String) × (key : Key) × (key_url : String) × (kid : Option String) × (supabase_url
            w.env_url
          ≡ ok url)
        × (decode token key (str_append url "/auth/v1") ≡ ok claims)
        × (jwks_url w.env_url ≡ ok key_url)
        × (unverified_kid token ≡ some kid)
        × ((find_key key_of (cache_for j caches key_url) kid ≡ some key)
            ⊎ (find_key key_of (cache_for j (verify_token j w caches token).0 key_url) kid
                ≡ some key))
  verify_token_sound w caches token claims production h =
      elim (Result-cases (supabase_url w.env_url)) [
        | inr (bad, q) ↦ absurd (cc (verify_token_bad w caches token bad q))
        | inl (url, q) ↦
            let e = verify_token_production w caches token url production q in
            elim (Result-cases (cached_key j w caches token).1) [
              | inr (bad, k) ↦ absurd (ground (arith, e, k))
              | inl (key, k) ↦
                  let (key_url, kid, found_url, found_kid, found) =
                    cached_key_sound w caches token key k in
                  (
                    url,
                    key,
                    key_url,
                    kid,
                    q,
                    decode_claims_ok token key (str_append url "/auth/v1") claims
                        (ground (arith, e, k)),
                    found_url,
                    found_kid,
                    rw e found,
                  )
            ]
      ]
