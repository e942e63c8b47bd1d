-- ===== src/Billing/Tests.antt =====
-- Runs of dealfinder/billing.py, and the theorems at concrete inputs.
use tutorial_dealfinder.Base.{
  ℕ, String, ◌≡◌, refl, Option, none, some, [], ◌∷◌, if◌then◌else◌, lookup, insert, ok, raise,
  string_eq, nat_eq, ◌==◌, arith,
}
use tutorial_dealfinder.Billing.{
  plan_for, Store, used, over, within, within_quota, meter_usage, quota_exceeded, User,
  CheckoutRequest, price_of, checkout_request, Event, text, or_text, entitle, handle_webhook,
}
use tutorial_dealfinder.Billing.Quota.{IsMetered, meter_all, meter_all-IsMetered}

program : Unit {0}
unfolding lookup insert plan_for used over within within_quota meter_usage price_of checkout_request
    or_text entitle handle_webhook
program = tt

abbrev spent : Store
spent = ("ann", 24) ∷ []

last_search : meter_usage spent "ann" "free" 1 ≡ ok (("ann", 25) ∷ [], 25)
unfolding program
last_search = refl

past_quota : meter_usage spent "ann" "free" 2 ≡ raise quota_exceeded
unfolding program
past_quota = refl

abbrev on_free : String → String
on_free user = "free"

none_spent : IsMetered on_free []
unfolding program
none_spent = record { at = λ user. omega arith }

meter_all-IsMetered_example :
    IsMetered on_free (meter_all on_free [] (("ann", 24) ∷ ("ann", 2) ∷ ("bob", 30) ∷ []))
meter_all-IsMetered_example =
    meter_all-IsMetered on_free [] (("ann", 24) ∷ ("ann", 2) ∷ ("bob", 30) ∷ []) none_spent

abbrev env : String → Option String
env name = if name == "STRIPE_PRICE_PRO" then some "price_1" else none

abbrev ann : User
ann = record { id = "ann"; email = none }

abbrev request : CheckoutRequest
request = record {
  mode = "subscription";
  price = "price_1";
  quantity = 1;
  success_url = "s";
  cancel_url = "c";
  client_reference_id = "ann";
  customer_email = none;
  metadata = ("user_id", "ann") ∷ ("plan", "pro") ∷ [];
}

abbrev completed : Event
completed = record {
  event_type = "checkout.session.completed";
  client_reference_id = text "ann";
  metadata = some (("user_id", "ann") ∷ ("plan", "pro") ∷ []);
}

-- payloads are numbers here, and only payload 1 is signed
abbrev construct : ℕ → String → String → Option Event
construct n sig secret = if n == 1 then some completed else none

ann_entitled :
    handle_webhook construct 1 "sig" "secret" ≡ ok (some (record { user_id = "ann"; plan = "pro" }))
unfolding program
ann_entitled = refl
