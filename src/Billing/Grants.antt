-- ===== src/Billing/Grants.antt =====
-- What a Stripe webhook may grant (dealfinder/billing.py).
use tutorial_dealfinder.Base.{
  String, ◌≡◌, refl, false, inl, inr, Option, none, some, [], ◌∷◌, Dict, lookup, get_or, ok,
  string_eq, ◌==◌, arith, Option-cases, Result-cases,
}
use tutorial_dealfinder.Billing.{
  User, CheckoutRequest, checkout_request, price_of, Event, text, Entitlement, or_text, entitle,
  handle_webhook, plan_for,
}

entitle_named :
    (user : Option String) (meta : Dict String String) (e : Entitlement)
    → entitle user meta ≡ some e
    → (e.user_id == "") ≡ false
unfolding entitle
entitle_named none meta e h = cc
entitle_named (some u) meta e h = ground arith

request_fields :
    (env : String → Option String) (user : User) (plan_key success_url cancel_url : String)
    (request : CheckoutRequest)
    → checkout_request env user plan_key success_url cancel_url ≡ ok request
    → (request.client_reference_id ≡ user.id)
      × (request.metadata ≡ ("user_id", user.id) ∷ ("plan", plan_key) ∷ [])
unfolding checkout_request
request_fields env user plan_key success_url cancel_url request h =
    elim (Result-cases (price_of env (plan_for plan_key))) [
      | inr (e, q) ↦ absurd (ground (arith, q))
      | inl (price, q) ↦ (ground (arith, q), ground (arith, q))
    ]

plan_bought :
    (user_id plan_key : String)
    → get_or (lookup {K = String} (("user_id", user_id) ∷ ("plan", plan_key) ∷ []) "plan") "pro"
      ≡ plan_key
unfolding lookup
plan_bought user_id plan_key = refl

module _ {Payload : Type 0} (construct : Payload → String → String → Option Event) where
  -- An entitlement is granted only for an event whose signature Stripe's library accepted, of the
  -- type `checkout.session.completed`, and to a user id that is not empty.
  pub handle_webhook_grants :
      (payload : Payload) (sig_header secret : String) (e : Entitlement)
      → handle_webhook construct payload sig_header secret ≡ ok (some e)
      → (event : Event) × (construct payload sig_header secret ≡ some event)
        × (event.event_type ≡ "checkout.session.completed")
        × ((e.user_id == "") ≡ false)
  unfolding handle_webhook
  handle_webhook_grants payload sig_header secret e h =
      elim (Option-cases (construct payload sig_header secret)) [
        | inl forged ↦ absurd (ground (arith, forged))
        | inr (event, q) ↦ (
          event,
          q,
          ground (arith, q, string_eq.same_iff event.event_type "checkout.session.completed"),
          ground (
            arith,
            q,
            entitle_named
                (or_text event.client_reference_id (lookup (get_or event.metadata []) "user_id"))
                (get_or event.metadata []) e,
          ),
        )
      ]

  -- A completed checkout grants what was bought: where the event carries the user reference and the
  -- metadata of the request that `create_checkout_session` made, the entitlement is of that user, with
  -- a non-empty id, to that plan.
  checkout_granted :
      (env : String → Option String) (user : User) (plan_key success_url cancel_url : String)
      (request : CheckoutRequest) (payload : Payload) (sig_header secret : String) (event : Event)
      → (user.id == "") ≡ false
      → checkout_request env user plan_key success_url cancel_url ≡ ok request
      → construct payload sig_header secret ≡ some event
      → event.event_type ≡ "checkout.session.completed"
      → event.client_reference_id ≡ text request.client_reference_id
      → event.metadata ≡ some request.metadata
      → handle_webhook construct payload sig_header secret
        ≡ ok (some (record { user_id = user.id; plan = plan_key }))
  unfolding handle_webhook or_text entitle
  checkout_granted env user plan_key success_url cancel_url request payload sig_header secret event
        named asked signed kind ref meta =
      let (user_is, meta_is) =
        request_fields env user plan_key success_url cancel_url request asked in
      rw (signed, kind, ref, meta, user_is, meta_is, named, named, plan_bought user.id plan_key)
