-- ===== src/Billing.antt =====
-- dealfinder/billing.py: plans, metering, Stripe checkout and webhooks.
pub mod Quota
pub mod Grants
mod Tests
use tutorial_dealfinder.Base.{
  ℕ, suc, ◌+◌, String, Bool, true, false, Option, none, some, List, [], ◌∷◌, ltb, if◌then◌else◌,
  Dict, lookup, insert, get_or, Result, ok, raise, ◌>>=◌, or_raise, string_eq, ◌==◌,
}

-- `negsuc n` is -(n + 1)
pub data ℤ : Type 0 where
  pos : ℕ → ℤ
  negsuc : ℕ → ℤ

pub record Plan : Type 0 where
  pub key : String
  pub name : String
  -- a negative quota is no limit
  pub monthly_searches : ℤ
  pub price_env : String

abbrev pub free : Plan
free = record { key = "free"; name = "Free"; monthly_searches = pos 25; price_env = "" }

abbrev pub pro : Plan
pro = record {
  key = "pro";
  name = "Pro";
  monthly_searches = pos 1000;
  price_env = "STRIPE_PRICE_PRO";
}

-- `PLANS`
abbrev pub plans : Dict String Plan
plans = ("free", free) ∷ ("pro", pro) ∷ []

pub data Error : Type 0 where
  quota_exceeded value_error signature_error : Error

unfoldable pub plan_for : String → Plan
plan_for key = get_or (lookup plans key) free

-- a user's count in the metering store
abbrev pub Store : Type 0
Store = Dict String ℕ

unfoldable pub used : Store → String → ℕ
used store user = get_or (lookup store user) 0

-- `within_quota`, once the plan is found
unfoldable pub within : ℤ → ℕ → Bool
within (pos quota) n = ltb n quota
within (negsuc _) n = true

-- `plan.monthly_searches >= 0 and used + n > plan.monthly_searches`
unfoldable pub over : ℤ → ℕ → Bool
over (pos quota) total = ltb quota total
over (negsuc _) total = false

unfoldable pub within_quota : Store → String → String → Bool
unfolding within
within_quota store user plan_key = within (plan_for plan_key).monthly_searches (used store user)

-- the store afterwards, and the running total
unfoldable pub meter_usage : Store → String → String → ℕ → Result Error (Store × ℕ)
unfolding over
meter_usage store user plan_key n =
    let total = used store user + n in
    if over (plan_for plan_key).monthly_searches total
    then raise quota_exceeded
    else ok (insert store user total, total)

pub record User : Type 0 where
  pub id : String
  pub email : Option String

-- What `client.checkout.Session.create` is given.
pub record CheckoutRequest : Type 0 where
  pub mode : String
  pub price : String
  pub quantity : ℕ
  pub success_url : String
  pub cancel_url : String
  pub client_reference_id : String
  pub customer_email : Option String
  pub metadata : Dict String String

pub record Session : Type 0 where
  pub id : String
  pub url : String

-- `os.getenv(plan.price_env) if plan.price_env else None`, refused if unset or empty
unfoldable pub price_of : (String → Option String) → Plan → Result Error String
price_of env plan = if plan.price_env == "" then raise value_error else (do
  price ← or_raise (env plan.price_env) value_error
  if price == "" then raise value_error else ok price)

-- the request that `create_checkout_session` makes
unfoldable pub checkout_request :
    (String → Option String) → User → String → String → String → Result Error CheckoutRequest
checkout_request env user plan_key success_url cancel_url = do
  price ← price_of env (plan_for plan_key)
  ok (record {
    mode = "subscription";
    price = price;
    quantity = 1;
    success_url = success_url;
    cancel_url = cancel_url;
    client_reference_id = user.id;
    customer_email = user.email;
    metadata = ("user_id", user.id) ∷ ("plan", plan_key) ∷ [];
  })

-- `create_checkout_session`; Stripe's client is an argument
unfoldable pub create_checkout_session :
    (CheckoutRequest → Result Error Session)
    → (String → Option String)
    → User
    → String
    → String
    → String
    → Result Error Session
unfolding checkout_request
create_checkout_session client env user plan_key success_url cancel_url = do
  request ← checkout_request env user plan_key success_url cancel_url
  client request

pub record Entitlement : Type 0 where
  pub user_id : String
  pub plan : String

-- A field of a Stripe object: missing, null or a text.
pub data Field : Type 0 where
  missing null : Field
  text : String → Field

-- What the handler reads of a verified event.
pub record Event : Type 0 where
  pub event_type : String
  pub client_reference_id : Field
  pub metadata : Option (Dict String String)

-- `a or b`, where a missing or null field is `None`
unfoldable pub or_text : Field → Option String → Option String
or_text missing b = b
or_text null b = b
or_text (text s) b = if s == "" then b else some s

-- `if not user_id`
unfoldable pub entitle : Option String → Dict String String → Option Entitlement
entitle none meta = none
entitle (some user_id) meta =
    if user_id == ""
    then none
    else some (record { user_id = user_id; plan = get_or (lookup meta "plan") "pro" })

-- `handle_webhook`; `construct` is `stripe.Webhook.construct_event`, nothing where the signature
-- is refused
unfoldable pub handle_webhook :
    {Payload : Type 0}
    → (Payload → String → String → Option Event)
    → Payload
    → String
    → String
    → Result Error (Option Entitlement)
handle_webhook construct payload sig_header secret = do
  event ← or_raise (construct payload sig_header secret) signature_error
  if event.event_type == "checkout.session.completed"
      then (let meta = get_or event.metadata [] in
          ok (entitle (or_text event.client_reference_id (lookup meta "user_id")) meta))
      else ok none
