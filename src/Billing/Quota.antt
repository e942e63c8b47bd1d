-- ===== src/Billing/Quota.antt =====
-- Metering against a plan's quota (dealfinder/billing.py).
use tutorial_dealfinder.Base.{
  ℕ, ◌+◌, ◌≤◌, String, ◌≡◌, refl, true, false, not, ◌⊎◌, inl, inr, List, [], ◌∷◌, if◌then◌else◌,
  insert, ok, raise, string_eq, ◌==◌, lookup-insert, arith, Bool-cases,
}
use tutorial_dealfinder.Billing.{
  ℤ, pos, negsuc, plan_for, Store, used, over, within, within_quota, meter_usage, quota_exceeded,
}

used-insert :
    (store : Store) (user other : String) (n : ℕ)
    → used (insert store user n) other ≡ (if user == other then n else used store other)
unfolding used
used-insert store user other n = ground (arith, lookup-insert store user other n)

within-over : (q : ℤ) (n : ℕ) → within q n ≡ not (over q (n + 1))
unfolding within over
within-over (pos quota) n = ground arith
within-over (negsuc _) n = refl

-- A user within the quota is exactly one whose next search can be metered.
pub within_quota-meter :
    (store : Store) (user plan_key : String)
    → within_quota store user plan_key
      ≡ (elim (meter_usage store user plan_key 1) [ ok _ ↦ true | raise _ ↦ false ])
unfolding within_quota meter_usage
within_quota-meter store user plan_key =
    ground (arith, within-over (plan_for plan_key).monthly_searches (used store user))

-- A metered call raises and records nothing if it would pass the quota; otherwise it adds `n` to
-- this user's count, returns the new count, and changes no other user's.
pub meter_usage_lem :
    (store : Store) (user plan_key : String) (n : ℕ)
    → ((over (plan_for plan_key).monthly_searches (used store user + n) ≡ true)
        × (meter_usage store user plan_key n ≡ raise quota_exceeded))
      ⊎ ((store' : Store) × (meter_usage store user plan_key n ≡ ok (store', used store user + n))
          × (over (plan_for plan_key).monthly_searches (used store user + n) ≡ false)
          × ((other : String)
              → used store' other
                ≡ (if user == other then used store user + n else used store other)))
unfolding meter_usage
meter_usage_lem store user plan_key n =
    let total = used store user + n in
    elim (Bool-cases (over (plan_for plan_key).monthly_searches total)) [
      | inl above ↦ inl (above, rw above)
      | inr fits ↦
          inr (insert store user total, rw fits, fits, λ other. used-insert store user other total)
    ]

-- what the plan allows
abbrev pub Within : ℤ → ℕ → Type 0
Within (pos quota) n = n ≤ quota
Within (negsuc _) n = Unit

over_lem : (q : ℤ) (n : ℕ) → over q n ≡ false → Within q n
unfolding over
over_lem (pos quota) n h = ground arith
over_lem (negsuc _) n h = tt

-- Every user, on the plan that `plan_of` gives them, has used no more than it allows.
pub record IsMetered (plan_of : String → String) (store : Store) : Type 0 where
  pub at : (user : String) → Within (plan_for (plan_of user)).monthly_searches (used store user)

-- calls of `meter_usage`, one after the other; one that raises leaves the store alone
pub meter_all : (String → String) → Store → List (String × ℕ) → Store
meter_all plan_of store [] = store
meter_all plan_of store ((user, n) ∷ calls) =
    meter_all plan_of
      (elim (meter_usage store user (plan_of user) n) [ ok r ↦ r.0 | raise _ ↦ store ]) calls

-- Whatever is metered, for whomever and in whatever amounts: no user passes their plan's quota.
pub meter_all-IsMetered :
    (plan_of : String → String) (store : Store) (calls : List (String × ℕ))
    → IsMetered plan_of store
    → IsMetered plan_of (meter_all plan_of store calls)
unfolding meter_all
meter_all-IsMetered plan_of store [] h = h
meter_all-IsMetered plan_of store ((user, n) ∷ calls) h =
    elim (meter_usage_lem store user (plan_of user) n) [
      | inl (_, refused) ↦ rw refused (meter_all-IsMetered plan_of store calls h)
      | inr (store', metered, fits, counts) ↦ rw metered (
          meter_all-IsMetered plan_of store' calls (record {
            at = λ other. elim (Bool-cases (user == other)) [
              | inl same ↦
                  rw (counts other, same, ← (string_eq.same_iff user other).0 same)
                    (over_lem _ _ fits)
              | inr ne ↦ rw (counts other, ne) (h.at other)
            ];
          }))
    ]
