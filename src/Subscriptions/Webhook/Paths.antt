-- ===== src/Subscriptions/Webhook/Paths.antt =====
-- The webhook handler of the Directory service is made of six writes: what each of them does to
-- the database, every path through the handler does, also one that throws.
use conference_contact.Prelude.{ℕ, Option, none, some, or_else}
use conference_contact.Schema.{Db}
use conference_contact.Schema.Billing.{Subscription, InvoiceStatus, CreditGrant, past_due}
use conference_contact.Action.{Action, ◌>>◌}
use conference_contact.Action.Keeps.{Keeps, IsStable, keeps_rules}
use conference_contact.Credits.{increment_credits, add_credit_grant}
use conference_contact.Stripe.{
  StripeSubscription, CheckoutSession, SessionMode, payment, subscription, setup, StripeInvoice,
  Event, checkout_completed, subscription_changed, subscription_deleted, invoice_paid,
  invoice_payment_failed, other_event, Env,
}
use conference_contact.Subscriptions.Rows.{put_subscription, add_subscription}
use conference_contact.Subscriptions.Sync.{
  map_stripe_sub_to_update, created_row, upsert_subscription, prevent_duplicate,
  sync_without_metadata, sync_with_metadata, sync_by_metadata, sync_subscription_from_stripe,
}
use conference_contact.Subscriptions.Webhook.{
  grant_pack, handle_credits_checkout_completed, confirm, send_subscription_confirmed_email,
  mark_row_past_due, mark_past_due, upsert_invoice, sync_referenced_invoice,
  sync_invoice_from_stripe, subscription_completed, completed, cancel_rows, payment_failed,
  handle_webhook_event,
}

pub record DirectoryWrites (env : Env) (R : Db → Db → Type 0) : Type 0 where
  pub stable : IsStable R
  pub synced :
      (s : StripeSubscription) (row : Subscription)
      → Keeps R (put_subscription (map_stripe_sub_to_update env.now s row.past_due_since row))
  pub created :
      (s : StripeSubscription) (user_id plan_id : ℕ)
      → Keeps R (add_subscription (created_row env s user_id plan_id))
  pub failed :
      (row : Subscription)
      → Keeps R (
          put_subscription (record row {
            status = past_due;
            past_due_since = some (or_else row.past_due_since env.now);
          }))
  pub deleted : (id : ℕ) → Keeps R (cancel_rows env id)
  pub invoiced :
      (i : StripeInvoice) (status : InvoiceStatus) (sub : Option Subscription)
      → Keeps R (upsert_invoice env i status sub)
  pub granted :
      (g : CreditGrant) (rest : Action (Unit {0}))
      → Keeps R rest
      → Keeps R (increment_credits g.user_id g.credits >> (add_credit_grant g >> rest))

module _ {R : Db → Db → Type 0} (env : Env) (w : DirectoryWrites env R) where
  upsert_path :
      (s : StripeSubscription) (user_id plan_id : ℕ) (existing : Option Subscription)
      → Keeps R (upsert_subscription env s user_id plan_id existing)
  unfolding upsert_subscription
  upsert_path s user_id plan_id (some row) = w.synced s row
  upsert_path s user_id plan_id none = search (keeps_rules, w.stable, w.created)

  duplicate_path : (user_id id : ℕ) → Keeps R (prevent_duplicate env user_id id)
  unfolding prevent_duplicate
  duplicate_path user_id id = search (keeps_rules, w.stable)

  by_metadata_path :
      (user_id plan_id : Option ℕ) (s : StripeSubscription) (existing : Option Subscription)
      → Keeps R (sync_by_metadata env user_id plan_id s existing)
  unfolding sync_with_metadata sync_without_metadata
  by_metadata_path (some user_id) (some plan_id) s existing =
      search (keeps_rules, w.stable, upsert_path, duplicate_path)
  by_metadata_path (some user_id) none s none = search (keeps_rules, w.stable)
  by_metadata_path (some user_id) none s (some row) = w.synced s row
  by_metadata_path none plan_id s none = search (keeps_rules, w.stable)
  by_metadata_path none plan_id s (some row) = w.synced s row

  sync_path : (s : StripeSubscription) → Keeps R (sync_subscription_from_stripe env s)
  unfolding sync_subscription_from_stripe
  sync_path s = search (keeps_rules, w.stable, by_metadata_path)

  pack_path :
      (session : CheckoutSession) (user_id credits : Option ℕ)
      → Keeps R (grant_pack env session user_id credits)
  unfolding grant_pack
  pack_path session (some user_id) (some credits) = search (keeps_rules, w.stable, w.granted)
  pack_path session (some user_id) none = search (keeps_rules, w.stable)
  pack_path session none credits = search (keeps_rules, w.stable)

  confirm_path : (user_id plan_id : Option ℕ) → Keeps R (confirm env user_id plan_id)
  unfolding confirm
  confirm_path (some user_id) (some plan_id) = search (keeps_rules, w.stable)
  confirm_path (some user_id) none = search (keeps_rules, w.stable)
  confirm_path none plan_id = search (keeps_rules, w.stable)

  email_path : (s : StripeSubscription) → Keeps R (send_subscription_confirmed_email env s)
  unfolding send_subscription_confirmed_email
  email_path s = search (keeps_rules, w.stable, confirm_path)

  mark_path : (existing : Option Subscription) → Keeps R (mark_row_past_due env existing)
  unfolding mark_row_past_due
  mark_path none = search (keeps_rules, w.stable)
  mark_path (some row) = search (keeps_rules, w.stable, w.failed)

  reference_path :
      (id : Option ℕ) (i : StripeInvoice) (status : InvoiceStatus)
      → Keeps R (sync_referenced_invoice env id i status)
  unfolding sync_referenced_invoice
  reference_path none i status = search (keeps_rules, w.stable)
  reference_path (some id) i status = search (keeps_rules, w.stable, w.invoiced)

  invoice_path :
      (i : StripeInvoice) (status : InvoiceStatus) → Keeps R (sync_invoice_from_stripe env i status)
  unfolding sync_invoice_from_stripe
  invoice_path i status = reference_path i.subscription i status

  completed_path : (id : Option ℕ) → Keeps R (subscription_completed env id)
  unfolding subscription_completed
  completed_path none = search (keeps_rules, w.stable)
  completed_path (some id) = search (keeps_rules, w.stable, sync_path, email_path)

  mode_path :
      (mode : SessionMode) (session : CheckoutSession) → Keeps R (completed env mode session)
  unfolding completed handle_credits_checkout_completed
  mode_path payment session = search (pack_path)
  mode_path subscription session = search (completed_path)
  mode_path setup session = search (keeps_rules, w.stable)

  failed_path : (id : Option ℕ) → Keeps R (payment_failed env id)
  unfolding payment_failed mark_past_due
  failed_path none = search (keeps_rules, w.stable)
  failed_path (some id) = search (keeps_rules, w.stable, mark_path)

  pub handle_webhook_event-Keeps : (event : Event) → Keeps R (handle_webhook_event env event)
  unfolding handle_webhook_event
  handle_webhook_event-Keeps (checkout_completed session) = mode_path session.mode session
  handle_webhook_event-Keeps (subscription_changed s) = sync_path s
  handle_webhook_event-Keeps (subscription_deleted id) = w.deleted id
  handle_webhook_event-Keeps (invoice_paid i) = search (invoice_path)
  handle_webhook_event-Keeps (invoice_payment_failed i) =
      search (keeps_rules, w.stable, invoice_path, failed_path)
  handle_webhook_event-Keeps other_event = search (keeps_rules, w.stable)
