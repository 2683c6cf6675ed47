-- ===== src/LeadFinderBilling/Webhook.antt =====
-- `handleWebhookEvent` of src/lead-finder-billing/lead-finder-billing.service.ts.
pub mod Paths
use conference_contact.Prelude.{
  ℕ, ◌*◌, Bool, true, false, not, ◌&&◌, Option, none, some, List, [], ◌∷◌, ◌++◌, ◌==◌, find_first,
  update_where, is_some, or_else, if◌then◌else◌,
}
use conference_contact.Schema.{Db, audit, stripe_cancel}
use conference_contact.Schema.Billing.{
  SubscriptionStatus, trialing, active, past_due, canceled, expired, LeadFinderSubscription,
  LeadFinderTier, is_past_due, lead_finder_tier_grant,
}
use conference_contact.Action.{
  Action, foreign_key_violation, stripe_failure, raise, gets, or_raise, ◌>>=◌, ◌>>◌, skip, raise_if,
  modify, emit, on_unique_violation, mail_user,
}
use conference_contact.Stripe.{
  StripeStatus, StripeSubscription, CheckoutSession, SessionMode, payment, subscription, setup,
  StripeInvoice, Event, checkout_completed, subscription_changed, subscription_deleted,
  invoice_paid, invoice_payment_failed, other_event, Env, is_lead_finder_tier,
}
use conference_contact.Credits.{increment_credits, add_credit_grant}
use conference_contact.LeadFinderBilling.Rows.{
  put_tier_subscription, add_tier_subscription, find_tier_by_stripe_id,
}

unfoldable pub map_tier_status : StripeStatus → SubscriptionStatus
map_tier_status StripeStatus.trialing = trialing
map_tier_status StripeStatus.active = active
map_tier_status StripeStatus.past_due = past_due
map_tier_status StripeStatus.unpaid = past_due
map_tier_status StripeStatus.paused = past_due
map_tier_status StripeStatus.canceled = canceled
map_tier_status StripeStatus.incomplete = expired
map_tier_status StripeStatus.incomplete_expired = expired

-- `existing?.pastDueSince`
abbrev pub past_due_since_of : Option LeadFinderSubscription → Option ℕ
past_due_since_of none = none
past_due_since_of (some row) = row.past_due_since

abbrev pub find_tier : ℕ → Db → Option LeadFinderTier
find_tier id db = find_first (λ t. t.id == id) db.tiers

-- the foreign keys of a new row
unfoldable pub known_tier_owner : ℕ → ℕ → Db → Bool
known_tier_owner user_id tier_id db =
    is_some (find_first (λ u. u.id == user_id) db.users) && is_some (find_tier tier_id db)

module _ (env : Env) where
  -- `status === 'PAST_DUE' ? (existing?.pastDueSince ?? new Date()) : null`
  unfoldable pub tier_past_due_since : SubscriptionStatus → Option LeadFinderSubscription → Option ℕ
  tier_past_due_since status existing =
      if is_past_due status then some (or_else (past_due_since_of existing) env.now) else none

  unfoldable pub updated_tier_row :
      StripeSubscription
      → Option LeadFinderSubscription
      → LeadFinderSubscription
      → LeadFinderSubscription
  unfolding map_tier_status tier_past_due_since
  updated_tier_row s existing row = record row {
    status = map_tier_status s.status;
    current_period_start = s.current_period_start * 1000;
    current_period_end = s.current_period_end * 1000;
    cancel_at_period_end = s.cancel_at_period_end;
    past_due_since = tier_past_due_since (map_tier_status s.status) existing;
  }

  unfoldable pub created_tier_row : StripeSubscription → ℕ → ℕ → LeadFinderSubscription
  unfolding map_tier_status tier_past_due_since
  created_tier_row s user_id tier_id = record {
    id = env.fresh;
    user_id = user_id;
    tier_id = tier_id;
    stripe_customer_id = s.customer;
    stripe_subscription_id = s.id;
    status = map_tier_status s.status;
    current_period_start = s.current_period_start * 1000;
    current_period_end = s.current_period_end * 1000;
    cancel_at_period_end = s.cancel_at_period_end;
    past_due_since = tier_past_due_since (map_tier_status s.status) none;
    renewal_reminder_sent_for_period_end = none;
    created_at = env.now;
  }

  unfoldable pub upsert_tier_subscription :
      StripeSubscription → ℕ → ℕ → Option LeadFinderSubscription → Action (Unit {0})
  unfolding known_tier_owner
  upsert_tier_subscription s user_id tier_id (some row) =
      put_tier_subscription (updated_tier_row s (some row) row)
  upsert_tier_subscription s user_id tier_id none = do
    known ← gets (known_tier_owner user_id tier_id)
    if known
        then add_tier_subscription (created_tier_row s user_id tier_id)
        else raise foreign_key_violation

  mail_first_failure :
      StripeSubscription → ℕ → ℕ → Option LeadFinderSubscription → Action (Unit {0})
  unfolding map_tier_status
  mail_first_failure s user_id tier_id existing = do
    known ← gets (λ db. is_some (find_tier tier_id db))
    if is_past_due (map_tier_status s.status)
          && (not (is_some (past_due_since_of existing)) && known)
        then mail_user user_id "payment-failed"
        else skip

  unfoldable pub prevent_duplicate_tier : ℕ → ℕ → Action (Unit {0})
  prevent_duplicate_tier user_id stripe_id = do
    raise_if (not (env.stripe.cancel stripe_id)) stripe_failure
    emit (stripe_cancel stripe_id)
    emit (
        audit (some user_id) "billing.duplicate_lead_finder_subscription_prevented"
          (some stripe_id))

  sync_tier : Option ℕ → Option ℕ → StripeSubscription → Action (Unit {0})
  unfolding mail_first_failure
  sync_tier (some user_id) (some tier_id) s = do
    existing ← gets (find_tier_by_stripe_id s.id)
    on_unique_violation
        (do
          upsert_tier_subscription s user_id tier_id existing
          mail_first_failure s user_id tier_id existing)
        (prevent_duplicate_tier user_id s.id)
  sync_tier (some user_id) none s = skip
  sync_tier none tier_id s = skip

  unfoldable pub sync_from_stripe : StripeSubscription → Action (Unit {0})
  unfolding sync_tier
  sync_from_stripe s = sync_tier s.metadata.user_id s.metadata.tier_id s

  confirm_tier : Option ℕ → Option ℕ → Action (Unit {0})
  confirm_tier (some user_id) (some tier_id) = do
    known ← gets (λ db. is_some (find_tier tier_id db))
    if known then mail_user user_id "subscription-confirmed" else skip
  confirm_tier (some user_id) none = skip
  confirm_tier none tier_id = skip

  grant_tier : StripeInvoice → ℕ → Option LeadFinderTier → Action (Unit {0})
  grant_tier i user_id none = skip
  grant_tier i user_id (some tier) = do
    increment_credits user_id tier.credits
    add_credit_grant (record {
      id = env.fresh;
      user_id = user_id;
      credits = tier.credits;
      source = lead_finder_tier_grant;
      amount_paid_cents = some i.amount_paid;
      stripe_reference = some i.id;
      created_at = env.now;
    })
    emit (audit (some user_id) "billing.lead_finder_credits_granted" none)

  grant_by_metadata : StripeInvoice → Option ℕ → Option ℕ → Action (Unit {0})
  unfolding grant_tier
  grant_by_metadata i (some user_id) (some tier_id) = do
    tier ← gets (find_tier tier_id)
    grant_tier i user_id tier
  grant_by_metadata i (some user_id) none = skip
  grant_by_metadata i none tier_id = skip

  unfoldable pub grant_monthly_credits : StripeInvoice → Action (Unit {0})
  unfolding grant_by_metadata
  grant_monthly_credits i =
      if is_lead_finder_tier i.metadata
      then grant_by_metadata i i.metadata.user_id i.metadata.tier_id
      else skip

  tier_subscription_completed : CheckoutSession → Option ℕ → Action (Unit {0})
  unfolding confirm_tier
  tier_subscription_completed session none = skip
  tier_subscription_completed session (some id) =
      if is_lead_finder_tier session.metadata
      then (do
        s ← or_raise (env.stripe.retrieve id) stripe_failure
        sync_from_stripe s
        confirm_tier s.metadata.user_id s.metadata.tier_id)
      else skip

  tier_completed : SessionMode → CheckoutSession → Action (Unit {0})
  unfolding tier_subscription_completed
  tier_completed subscription session = tier_subscription_completed session session.subscription
  tier_completed payment session = skip
  tier_completed setup session = skip

  unfoldable pub cancel_tier_rows : ℕ → Action (Unit {0})
  cancel_tier_rows stripe_id = modify λ db. record db {
    lead_finder_subscriptions =
        update_where (λ s. s.stripe_subscription_id == stripe_id)
          (λ s. record s { status = canceled }) db.lead_finder_subscriptions;
  }

  unfoldable pub handle_tier_webhook_event : Event → Action (Unit {0})
  unfolding tier_completed
  handle_tier_webhook_event (checkout_completed session) = tier_completed session.mode session
  handle_tier_webhook_event (subscription_changed s) =
      if is_lead_finder_tier s.metadata then sync_from_stripe s else skip
  handle_tier_webhook_event (subscription_deleted id) = cancel_tier_rows id
  handle_tier_webhook_event (invoice_paid i) = grant_monthly_credits i
  handle_tier_webhook_event (invoice_payment_failed i) = skip
  handle_tier_webhook_event other_event = skip
