-- ===== src/Subscriptions/Checkout.antt =====
-- `createCreditsCheckoutSession`, `createCheckoutSession` and `createPortalSession` of
-- src/subscriptions/subscriptions.service.ts.
pub mod Laws
use conference_contact.Prelude.{
  ℕ, ◌*◌, String, Bool, true, false, ◌&&◌, Option, none, some, ◌==◌, find_first, find_latest,
  update_where, if◌then◌else◌,
}
use text.Mathlib.Text.{◌==◌ as str_eq}
use conference_contact.Schema.{Db, CheckoutRequest, stripe_cancel, audit}
use conference_contact.Schema.Accounts.{User}
use conference_contact.Schema.Billing.{Plan, CreditPack, Subscription, canceled}
use conference_contact.Action.{
  Action, bad_request, not_found, stripe_failure, pure, raise, gets, or_raise, skip, modify, emit,
  ◌>>=◌, ◌>>◌,
}
use conference_contact.Access.{has_active_access}
use conference_contact.Guards.{find_user, access_check, live_filter}
use conference_contact.Numerals.{print_int}
use conference_contact.Customers.{customer_of, get_or_create_stripe_customer, open_session}
use conference_contact.Stripe.{Env}
use conference_contact.Subscriptions.Sync.{cancel_at_stripe}

-- `findUnique({ where: { slug } })` and the test on `isActive`
unfoldable pub find_plan : String → Db → Option Plan
find_plan slug db = elim (find_first (λ p. str_eq p.slug slug) db.plans) [
  | none ↦ none
  | some p ↦ if p.is_active then some p else none
]

unfoldable pub find_pack : String → Db → Option CreditPack
find_pack slug db = elim (find_first (λ p. str_eq p.slug slug) db.credit_packs) [
  | none ↦ none
  | some p ↦ if p.is_active then some p else none
]

-- the newest row of the user that is live
abbrev pub find_live : ℕ → Db → Option Subscription
find_live user_id db = find_latest (live_filter user_id) (λ s. s.created_at) db.subscriptions

-- `subscription.update` by id, of a field that the unique index does not read, or that frees it
abbrev pub update_subscription : ℕ → (Subscription → Subscription) → Action (Unit {0})
update_subscription id f =
    modify λ db. record db { subscriptions = update_where (λ s. s.id == id) f db.subscriptions }

module _ (env : Env) where
  unfoldable pub create_credits_checkout_session : ℕ → String → ℕ → Action String
  create_credits_checkout_session user_id pack_slug quantity = do
    user ← or_raise (← gets (find_user user_id)) not_found
    pack ← or_raise (← gets (find_pack pack_slug)) not_found
    customer ← get_or_create_stripe_customer env user.id
    url ← open_session env (record {
      is_payment = true;
      customer = customer;
      price = pack.stripe_price_id;
      quantity = quantity;
      user_id = user.id;
      product_id = pack.id;
      kind = none;
      credits = some (print_int (pack.credits * quantity));
    })
    emit (audit (some user_id) "billing.credits_checkout_started" none)
    pure url

  -- The old subscription: one with access refuses the checkout, one past its grace is cancelled.
  unfoldable pub clear_existing : Option Subscription → Action (Unit {0})
  clear_existing none = skip
  clear_existing (some s) =
      if has_active_access (access_check s) env.grace_period_days env.now
      then raise bad_request
      else do
        cancel_at_stripe env s.stripe_subscription_id
        update_subscription s.id (λ r. record r { status = canceled; cancel_at_period_end = false })

  -- What follows once the old subscription is out of the way.
  unfoldable pub start_checkout : ℕ → User → Plan → Action String
  start_checkout user_id user plan = do
    customer ← get_or_create_stripe_customer env user.id
    url ← open_session env (record {
      is_payment = false;
      customer = customer;
      price = plan.stripe_price_id;
      quantity = 1;
      user_id = user.id;
      product_id = plan.id;
      kind = none;
      credits = none;
    })
    emit (audit (some user_id) "billing.checkout_started" none)
    pure url

  unfoldable pub create_checkout_session : ℕ → String → Action String
  unfolding clear_existing start_checkout
  create_checkout_session user_id plan_slug = do
    user ← or_raise (← gets (find_user user_id)) not_found
    plan ← or_raise (← gets (find_plan plan_slug)) not_found
    existing ← gets (find_live user_id)
    clear_existing existing
    start_checkout user_id user plan

  unfoldable pub create_portal_session : ℕ → Action String
  create_portal_session user_id = do
    user ← gets (find_user user_id)
    customer ← or_raise (customer_of user) bad_request
    or_raise (env.stripe.create_portal customer) stripe_failure
