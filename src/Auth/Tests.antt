-- ===== src/Auth/Tests.antt =====
-- Runs of dealfinder/auth.py and dealfinder/tenancy.py, and the theorems at concrete inputs. The
-- stand-in for PyJWT signs with a number: a token names its key, its signature and its claims.
use Prim.Native.String.{◌++◌ as str_append}
use tutorial_dealfinder.Base.{
  ℕ, String, ◌≡◌, refl, ◌⊎◌, true, Option, none, some, List, [], ◌∷◌, if◌then◌else◌, Dict, lookup,
  insert, ok, raise, arith, nat_beq, string_eq,
}
use tutorial_dealfinder.Auth.Jwks.{
  Jwks, empty, invalid_key, Wait, needs_fetch, fetch, begin, finish, key_for, find_key,
}
use tutorial_dealfinder.Auth.Jwks.Fetches.{Call, IsSpaced, request_times, request_times-IsSpaced}
use tutorial_dealfinder.Auth.Claims.{
  scalar, text, Claims, truthy, get, app_metadata, role_from_claims, tenant_from_claims,
}
use tutorial_dealfinder.Auth.Verify.{
  Jwt, other_error, World, Principal, invalid_token, supabase_url, rstrip_slash, jwks_url,
  decode_claims, key_from_set, cache_for, cached_key, signing_key, verify_token, principal_of,
  current_principal, require_account,
}
use tutorial_dealfinder.Auth.Verify.Access.{verify_token_sound}

program : Unit {0}
unfolding needs_fetch fetch begin finish key_for lookup insert truthy get app_metadata
    role_from_claims tenant_from_claims supabase_url rstrip_slash jwks_url decode_claims
    key_from_set cached_key signing_key verify_token principal_of current_principal require_account
program = tt

abbrev Keys : Type 0
Keys = Dict String ℕ

abbrev key_in : Keys → Option String → Option ℕ
key_in ks none = none
key_in ks (some kid) = lookup ks kid

abbrev two_keys : Keys
two_keys = ("a", 1) ∷ ("b", 2) ∷ []

abbrev loaded : Jwks Keys
loaded = record { keys = some two_keys; fetched_at = some 1000; failed_at = none }

-- the network answers with a set that has lost key "a"
abbrev rotated : Wait Keys
rotated = record {
  acquired = true;
  checked_at = 1700;
  network = some (("b", 2) ∷ []);
  returned_at = 1701;
}

abbrev down : Wait Keys
down = record rotated { network = none }

rotated_out : (key_for key_in loaded (some "a") 1700 1700 loaded rotated).answer ≡ raise invalid_key
unfolding program
rotated_out = refl

stale_served : (key_for key_in loaded (some "a") 1700 1700 loaded down).answer ≡ ok 1
unfolding program
stale_served = refl

-- the endpoint is down: asked at once, not again for 30 seconds, then asked again
abbrev outage : List (Call Keys)
outage =
    record {
      kid = some "a";
      now = 5;
      now' = 5;
      wait = record down { checked_at = 5; returned_at = 8 };
    }
    ∷ record {
      kid = some "z";
      now = 20;
      now' = 20;
      wait = record down { checked_at = 20; returned_at = 21 };
    }
    ∷ record {
      kid = some "a";
      now = 40;
      now' = 40;
      wait = record down { checked_at = 40; returned_at = 41 };
    }
    ∷ []

outage_requests : request_times key_in empty outage ≡ 8 ∷ 41 ∷ []
unfolding program request_times
outage_requests = refl

request_times-IsSpaced_example : IsSpaced (request_times key_in empty outage)
request_times-IsSpaced_example = request_times-IsSpaced key_in outage empty 0 (omega arith)

-- a token: its key id, the key that signed it, and its claims
abbrev SignedToken : Type 0
SignedToken = String × (ℕ × Claims)

abbrev pyjwt : Jwt
pyjwt = record {
  Token = SignedToken;
  Key = ℕ;
  KeySet = Keys;
  key_of = key_in;
  unverified_kid = λ t. some (some t.0);
  decode = λ t k issuer. if nat_beq t.1.0 k then ok t.1.1 else raise other_error;
}

abbrev world : World pyjwt
world = record {
  env_url = some "https://p.supabase.co/";
  test_jwks = none;
  now = 5;
  now' = 5;
  later = empty;
  wait = record { acquired = true; checked_at = 5; network = some two_keys; returned_at = 6 };
}

abbrev ann : SignedToken
ann = ("a", (1, ("sub", scalar (text "ann")) ∷ []))

abbrev forged : SignedToken
forged = ("a", (7, ("sub", scalar (text "ann")) ∷ []))

abbrev ann_principal : Principal
ann_principal = record {
  tenant_id = scalar (text "public");
  user_id = scalar (text "ann");
  role = scalar (text "free");
}

ann_verified : (verify_token pyjwt world [] ann).1 ≡ ok ann.1.1
unfolding program
ann_verified = refl

forged_refused : (verify_token pyjwt world [] forged).1 ≡ raise invalid_token
unfolding program
forged_refused = refl

verify_token_sound_example :
    (url : String) × (key : ℕ) × (key_url : String) × (kid : Option String) × (supabase_url
        world.env_url
      ≡ ok url)
    × (pyjwt.decode ann key (str_append url "/auth/v1") ≡ ok ann.1.1)
    × (jwks_url world.env_url ≡ ok key_url)
    × (pyjwt.unverified_kid ann ≡ some kid)
    × ((find_key key_in (cache_for pyjwt [] key_url) kid ≡ some key)
        ⊎ (find_key key_in (cache_for pyjwt (verify_token pyjwt world [] ann).0 key_url) kid
            ≡ some key))
verify_token_sound_example = verify_token_sound pyjwt world [] ann ann.1.1 refl ann_verified
