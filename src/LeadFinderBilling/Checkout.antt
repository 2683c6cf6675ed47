-- ===== src/LeadFinderBilling/Checkout.antt =====
-- `getStatus`, `createCheckoutSession` and `cancel` of
-- src/lead-finder-billing/lead-finder-billing.service.ts.
pub mod Laws
use conference_contact.Prelude.{
  ℕ, String, Bool, true, false, not, ◌&&◌, Option, none, some, ◌==◌, find_first, find_latest,
  update_where, is_some, if◌then◌else◌,
}
use text.Mathlib.Text.{◌==◌ as str_eq}
use conference_contact.Schema.{Db, CheckoutRequest, stripe_cancel_at_period_end, audit}
use conference_contact.Schema.Billing.{
  LeadFinderTier, LeadFinderSubscription, SubscriptionStatus, is_live,
}
use conference_contact.Action.{
  Action, bad_request, not_found, stripe_failure, pure, raise_if, gets, or_raise, modify, emit,
  ◌>>=◌, ◌>>◌,
}
use conference_contact.Access.{days_past_due}
use conference_contact.Guards.{find_user}
use conference_contact.Customers.{get_or_create_stripe_customer, open_session}
use conference_contact.Stripe.{Env}

abbrev pub tier_live_filter : ℕ → LeadFinderSubscription → Bool
tier_live_filter user_id s = s.user_id == user_id && is_live s.status

-- the newest live row of the user
abbrev pub find_live_tier : ℕ → Db → Option LeadFinderSubscription
find_live_tier user_id db =
    find_latest (tier_live_filter user_id) (λ s. s.created_at) db.lead_finder_subscriptions

-- the answer of `getStatus`; the foreign key rules out a row without a tier
pub data TierStatusView : Type 0 where
  free : TierStatusView
  on_tier : Option String → SubscriptionStatus → ℕ → Bool → Option ℕ → TierStatusView

abbrev slug_of : Option LeadFinderTier → Option String
slug_of none = none
slug_of (some t) = some t.slug

tier_status_view : ℕ → Option LeadFinderSubscription → Db → TierStatusView
tier_status_view now none db = free
tier_status_view now (some s) db =
    on_tier (slug_of (find_first (λ t. t.id == s.tier_id) db.tiers)) s.status s.current_period_end
      s.cancel_at_period_end (days_past_due s.past_due_since now)

unfoldable pub get_tier_status : ℕ → ℕ → Db → TierStatusView
unfolding tier_status_view
get_tier_status now user_id db = tier_status_view now (find_live_tier user_id db) db

-- a tier on sale, with its price: the negation of
-- `!tier || !tier.isActive || !tier.recurring || !tier.stripePriceId`
unfoldable pub tier_on_sale : Option LeadFinderTier → Option (LeadFinderTier × ℕ)
tier_on_sale none = none
tier_on_sale (some t) = elim t.stripe_price_id [
  | none ↦ none
  | some price ↦ if t.is_active && t.recurring then some (t, price) else none
]

abbrev pub find_tier_on_sale : String → Db → Option (LeadFinderTier × ℕ)
find_tier_on_sale slug db = tier_on_sale (find_first (λ t. str_eq t.slug slug) db.tiers)

module _ (env : Env) where
  unfoldable pub create_tier_checkout_session : ℕ → String → Action String
  create_tier_checkout_session user_id tier_slug = do
    user ← or_raise (← gets (find_user user_id)) not_found
    (tier, price) ← or_raise (← gets (find_tier_on_sale tier_slug)) bad_request
    existing ← gets (λ db. find_first (tier_live_filter user_id) db.lead_finder_subscriptions)
    raise_if (is_some existing) bad_request
    customer ← get_or_create_stripe_customer env user.id
    url ← open_session env (record {
      is_payment = false;
      customer = customer;
      price = price;
      quantity = 1;
      user_id = user.id;
      product_id = tier.id;
      kind = some "lead_finder_tier";
      credits = none;
    })
    emit (audit (some user_id) "billing.lead_finder_checkout_started" none)
    pure url

  unfoldable pub cancel_tier : ℕ → Action (Unit {0})
  cancel_tier user_id = do
    s ← or_raise (← gets (find_live_tier user_id)) not_found
    raise_if (not (env.stripe.set_cancel_at_period_end s.stripe_subscription_id true))
        stripe_failure
    emit (stripe_cancel_at_period_end s.stripe_subscription_id true)
    modify (λ db. record db {
      lead_finder_subscriptions =
          update_where (λ r. r.id == s.id) (λ r. record r { cancel_at_period_end = true })
            db.lead_finder_subscriptions;
    })
    emit (audit (some user_id) "billing.lead_finder_cancel_requested" (some s.id))
