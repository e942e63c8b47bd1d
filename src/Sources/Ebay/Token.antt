-- ===== src/Sources/Ebay/Token.antt =====
-- The token of dealfinder/live_sources.py's eBay client, over the calls of a process.
use tutorial_dealfinder.Base.{
  ℕ, ◌+◌, ◌<◌, ◌≡◌, ◌⊎◌, refl, ◌∙◌, inl, inr, String, Option, none, some, List, [], ◌∷◌, Result, ok,
  raise, string_eq, arith, Option-cases, Result-cases,
}
use tutorial_dealfinder.Sources.{Error}
use tutorial_dealfinder.Sources.Ebay.{
  Session, Grant, signed_out, expiry, kept_token, renewed, hand_out, get_token,
}

-- a call of `_get_token`
pub record Call : Type 0 where
  pub now : ℕ
  pub later : ℕ
  pub request : Result Error Grant

-- the session after calls, the last call first
abbrev pub session_after : List Call → Session
session_after [] = signed_out
session_after (c ∷ calls) = (get_token (session_after calls) c.now c.later c.request).0

-- the seconds that a grant holds
abbrev pub lifetime : Grant → ℕ
lifetime grant = elim grant.expires_in [ none ↦ 7200 | some seconds ↦ seconds ]

-- one of the calls was granted the token, and at `now` it holds for more than another minute
abbrev pub IsLive : List Call → String → ℕ → Type 0
IsLive [] token now = ⊥
IsLive (c ∷ calls) token now =
    ((grant : Grant) × (c.request ≡ ok grant)
      × (grant.access_token ≡ token)
      × (now + 60 < c.later + lifetime grant))
    ⊎ IsLive calls token now

-- the token that is kept, if any, is live up to its expiry
IsKept : List Call → Session → Type 0
IsKept calls s =
    (token : String) (now : ℕ) → s.token ≡ some token → now < s.expires → IsLive calls token now

before_expiry :
    (now at : ℕ) (grant : Grant) → now < expiry at grant.expires_in → now + 60 < at + lifetime grant
before_expiry now at grant h = elim (Option-cases grant.expires_in) [
  | inl default ↦ ground (arith, default, h)
  | inr (seconds, given) ↦ ground (arith, given, h)
]

kept_token_lem :
    (held : Option String) (expires now : ℕ) (token : String)
    → kept_token held expires now ≡ some token
    → (held ≡ some token) × (now < expires)
kept_token_lem none expires now token h = ground (arith, h)
kept_token_lem (some s) expires now token h = ground (arith, h)

IsKept-renewed :
    (c : Call) (calls : List Call) (s : Session)
    → IsKept calls s
    → IsKept (c ∷ calls) (renewed s c.later c.request).0
unfolding IsKept
IsKept-renewed c calls s kept token now held early = elim (Result-cases c.request) [
  | inr (e, bad) ↦ inr (kept token now (rw bad at held) (rw bad at early))
  | inl (grant, granted) ↦ inl (
    grant,
    granted,
    ground (arith, granted, held),
    before_expiry now c.later grant (rw granted at early),
  )
]

weaken : (c : Call) (calls : List Call) (s : Session) → IsKept calls s → IsKept (c ∷ calls) s
unfolding IsKept
weaken c calls s kept token now held early = inr (kept token now held early)

IsKept-hand_out :
    (c : Call) (calls : List Call) (s : Session) (held : Option String)
    → IsKept calls s
    → IsKept (c ∷ calls) (hand_out held s c.later c.request).0
IsKept-hand_out c calls s none kept = IsKept-renewed c calls s kept
IsKept-hand_out c calls s (some token) kept = weaken c calls s kept

session_after-IsKept : (calls : List Call) → IsKept calls (session_after calls)
unfolding get_token IsKept
session_after-IsKept [] = λ token now held early. ground (arith, held)
session_after-IsKept (c ∷ calls) =
    let s = session_after calls in
    IsKept-hand_out c calls s (kept_token s.token s.expires c.now) (session_after-IsKept calls)

handed_out :
    (calls : List Call) (now later : ℕ) (request : Result Error Grant) (token : String)
    (held : Option String)
    → kept_token (session_after calls).token (session_after calls).expires now ≡ held
    → (hand_out held (session_after calls) later request).1 ≡ ok token
    → IsLive calls token now
      ⊎ ((grant : Grant) × (request ≡ ok grant) × (grant.access_token ≡ token))
unfolding IsKept
handed_out calls now later request token (some t) kept h =
    let s = session_after calls in
    let (is_held, early) = kept_token_lem s.token s.expires now token (kept ∙ ground (arith, h)) in
    inl (session_after-IsKept calls token now is_held early)
handed_out calls now later (ok grant) token none kept h = inr (grant, refl, ground (arith, h))
handed_out calls now later (raise e) token none kept h = absurd (ground (arith, h))

-- After any calls, a token that `_get_token` hands out is the one just granted, or one that an
-- earlier call was granted and that holds for more than another minute.
pub get_token_lem :
    (calls : List Call) (now later : ℕ) (request : Result Error Grant) (token : String)
    → (get_token (session_after calls) now later request).1 ≡ ok token
    → IsLive calls token now
      ⊎ ((grant : Grant) × (request ≡ ok grant) × (grant.access_token ≡ token))
unfolding get_token
get_token_lem calls now later request token h = handed_out calls now later request token _ refl h
