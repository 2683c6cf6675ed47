-- ===== src/LeadFinderBilling/Webhook/Paths.antt =====
-- The webhook handler of the Lead Finder tiers is made of four writes: what each of them does to
-- the database, every path through the handler does, also one that throws.
use conference_contact.Prelude.{ℕ, Option, none, some}
use conference_contact.Schema.{Db}
use conference_contact.Schema.Billing.{LeadFinderSubscription, LeadFinderTier, CreditGrant}
use conference_contact.Action.{Action, ◌>>◌}
use conference_contact.Action.Keeps.{Keeps, IsStable, keeps_rules}
use conference_contact.Credits.{increment_credits, add_credit_grant}
use conference_contact.Stripe.{
  StripeSubscription, CheckoutSession, SessionMode, payment, subscription, setup, StripeInvoice,
  Event, checkout_completed, subscription_changed, subscription_deleted, invoice_paid,
  invoice_payment_failed, other_event, Env,
}
use conference_contact.LeadFinderBilling.Rows.{put_tier_subscription, add_tier_subscription}
use conference_contact.LeadFinderBilling.Webhook.{
  updated_tier_row, created_tier_row, upsert_tier_subscription, mail_first_failure,
  prevent_duplicate_tier, sync_tier, sync_from_stripe, confirm_tier, grant_tier, grant_by_metadata,
  grant_monthly_credits, tier_subscription_completed, tier_completed, cancel_tier_rows,
  handle_tier_webhook_event,
}

pub record TierWrites (env : Env) (R : Db → Db → Type 0) : Type 0 where
  pub stable : IsStable R
  pub synced :
      (s : StripeSubscription) (row : LeadFinderSubscription)
      → Keeps R (put_tier_subscription (updated_tier_row env s (some row) row))
  pub created :
      (s : StripeSubscription) (user_id tier_id : ℕ)
      → Keeps R (add_tier_subscription (created_tier_row env s user_id tier_id))
  pub deleted : (id : ℕ) → Keeps R (cancel_tier_rows env id)
  pub granted :
      (g : CreditGrant) (rest : Action (Unit {0}))
      → Keeps R rest
      → Keeps R (increment_credits g.user_id g.credits >> (add_credit_grant g >> rest))

module _ {R : Db → Db → Type 0} (env : Env) (w : TierWrites env R) where
  upsert_path :
      (s : StripeSubscription) (user_id tier_id : ℕ) (existing : Option LeadFinderSubscription)
      → Keeps R (upsert_tier_subscription env s user_id tier_id existing)
  unfolding upsert_tier_subscription
  upsert_path s user_id tier_id (some row) = w.synced s row
  upsert_path s user_id tier_id none = search (keeps_rules, w.stable, w.created)

  duplicate_path : (user_id id : ℕ) → Keeps R (prevent_duplicate_tier env user_id id)
  unfolding prevent_duplicate_tier
  duplicate_path user_id id = search (keeps_rules, w.stable)

  mail_path :
      (s : StripeSubscription) (user_id tier_id : ℕ) (existing : Option LeadFinderSubscription)
      → Keeps R (mail_first_failure env s user_id tier_id existing)
  unfolding mail_first_failure
  mail_path s user_id tier_id existing = search (keeps_rules, w.stable)

  tier_path :
      (user_id tier_id : Option ℕ) (s : StripeSubscription)
      → Keeps R (sync_tier env user_id tier_id s)
  unfolding sync_tier
  tier_path (some user_id) (some tier_id) s =
      search (keeps_rules, w.stable, upsert_path, duplicate_path, mail_path)
  tier_path (some user_id) none s = search (keeps_rules, w.stable)
  tier_path none tier_id s = search (keeps_rules, w.stable)

  sync_path : (s : StripeSubscription) → Keeps R (sync_from_stripe env s)
  unfolding sync_from_stripe
  sync_path s = tier_path s.metadata.user_id s.metadata.tier_id s

  confirm_path : (user_id tier_id : Option ℕ) → Keeps R (confirm_tier env user_id tier_id)
  unfolding confirm_tier
  confirm_path (some user_id) (some tier_id) = search (keeps_rules, w.stable)
  confirm_path (some user_id) none = search (keeps_rules, w.stable)
  confirm_path none tier_id = search (keeps_rules, w.stable)

  grant_path :
      (i : StripeInvoice) (user_id : ℕ) (tier : Option LeadFinderTier)
      → Keeps R (grant_tier env i user_id tier)
  unfolding grant_tier
  grant_path i user_id none = search (keeps_rules, w.stable)
  grant_path i user_id (some tier) = search (keeps_rules, w.stable, w.granted)

  by_metadata_path :
      (i : StripeInvoice) (user_id tier_id : Option ℕ)
      → Keeps R (grant_by_metadata env i user_id tier_id)
  unfolding grant_by_metadata
  by_metadata_path i (some user_id) (some tier_id) = search (keeps_rules, w.stable, grant_path)
  by_metadata_path i (some user_id) none = search (keeps_rules, w.stable)
  by_metadata_path i none tier_id = search (keeps_rules, w.stable)

  monthly_path : (i : StripeInvoice) → Keeps R (grant_monthly_credits env i)
  unfolding grant_monthly_credits
  monthly_path i = search (keeps_rules, w.stable, by_metadata_path)

  completed_path :
      (session : CheckoutSession) (id : Option ℕ)
      → Keeps R (tier_subscription_completed env session id)
  unfolding tier_subscription_completed
  completed_path session none = search (keeps_rules, w.stable)
  completed_path session (some id) = search (keeps_rules, w.stable, sync_path, confirm_path)

  mode_path :
      (mode : SessionMode) (session : CheckoutSession) → Keeps R (tier_completed env mode session)
  unfolding tier_completed
  mode_path subscription session = completed_path session session.subscription
  mode_path payment session = search (keeps_rules, w.stable)
  mode_path setup session = search (keeps_rules, w.stable)

  pub handle_tier_webhook_event-Keeps :
      (event : Event) → Keeps R (handle_tier_webhook_event env event)
  unfolding handle_tier_webhook_event
  handle_tier_webhook_event-Keeps (checkout_completed session) = mode_path session.mode session
  handle_tier_webhook_event-Keeps (subscription_changed s) =
      search (keeps_rules, w.stable, sync_path)
  handle_tier_webhook_event-Keeps (subscription_deleted id) = w.deleted id
  handle_tier_webhook_event-Keeps (invoice_paid i) = monthly_path i
  handle_tier_webhook_event-Keeps (invoice_payment_failed i) = search (keeps_rules, w.stable)
  handle_tier_webhook_event-Keeps other_event = search (keeps_rules, w.stable)
