-- ===== src/Auth/Verify/Accounts.antt =====
-- Users and principals (dealfinder/auth.py, dealfinder/tenancy.py): who passes the gates.
use tutorial_dealfinder.Base.{
  Result-cases, ◌≡◌, refl, inl, inr, true, Option, none, some, ok, string_eq, arith,
}
use tutorial_dealfinder.Auth.Claims.{
  null, scalar, Claims, truthy, get, role_from_claims, tenant_from_claims,
}
use tutorial_dealfinder.Auth.Verify.{
  Jwt, World, Caches, Principal, verify_token, principal_of, current_principal, require_account,
}

principal_user :
    (claims : Claims) (who : Principal)
    → principal_of claims ≡ ok who
    → who.user_id ≡ get claims "sub"
unfolding principal_of
principal_user claims who h = elim (Result-cases (tenant_from_claims claims)) [
  | inr (bad, q) ↦ absurd (ground (arith, q))
  | inl (tenant, q) ↦ elim (Result-cases (role_from_claims claims)) [
    | inr (bad, r) ↦ absurd (ground (arith, q, r))
    | inl (role, r) ↦ ground (arith, q, r)
  ]
]

account_user : (who who' : Principal) → require_account who ≡ ok who' → truthy who.user_id ≡ true
unfolding require_account
account_user who who' h = ground arith

anonymous_refused :
    (who who' : Principal) → who.user_id ≡ scalar null → require_account who ≡ ok who' → ⊥
unfolding truthy
anonymous_refused who who' e h = ground (arith, account_user who who' h)

module _ (j : Jwt) where
  open j use {Token}

  -- A watchlist or another account feature opens only for a verified token with a subject: a request
  -- that passes `require_account` carried a token whose claims were verified, the principal's user is
  -- the claims' `sub`, and that is not empty.
  account_needs_token :
      (w : World j) (caches : Caches j) (token : Option Token) (who who' : Principal)
      → (current_principal j w caches token).1 ≡ ok who
      → require_account who ≡ ok who'
      → (t : Token) × (claims : Claims) × (token ≡ some t)
        × ((verify_token j w caches t).1 ≡ ok claims)
        × (who.user_id ≡ get claims "sub")
        × (truthy (get claims "sub") ≡ true)
  unfolding current_principal
  account_needs_token w caches none who who' h g =
      absurd (anonymous_refused who who' (ground arith) g)
  account_needs_token w caches (some t) who who' h g =
      elim (Result-cases (verify_token j w caches t).1) [
        | inr (bad, q) ↦ absurd (ground arith)
        | inl (claims, q) ↦
            let user : who.user_id ≡ get claims "sub" =
              principal_user claims who (ground (arith, q)) in
            (t, claims, refl, q, user, rw (← user) (account_user who who' g))
      ]
