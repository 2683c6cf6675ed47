-- ===== src/Subscriptions/Webhook.antt =====
-- `handleWebhookEvent` of src/subscriptions/subscriptions.service.ts, with the credit packs, the
-- invoices and the failed payments.
pub mod Paths
use conference_contact.Prelude.{
  ℕ, zero, ◌*◌, ◌+◌, String, Bool, true, false, not, ◌&&◌, Option, none, some, List, [], ◌∷◌, ◌++◌,
  ◌==◌, find_first, update_where, is_some, or_else, if◌then◌else◌,
}
use conference_contact.Schema.{Db, Effect, audit, mail, stripe_cancel}
use conference_contact.Schema.Accounts.{User}
use conference_contact.Schema.Billing.{
  past_due, canceled, InvoiceStatus, paid, open_invoice, Subscription, Invoice, CreditGrant,
  credit_pack_purchase,
}
use conference_contact.Action.{
  Action, record_not_found, stripe_failure, pure, raise, gets, or_raise, ◌>>=◌, ◌>>◌, skip,
  raise_if, modify, emit, mail_user,
}
use conference_contact.Stripe.{
  StripeSubscription, CheckoutSession, SessionMode, payment, subscription, setup, StripeInvoice,
  Event, checkout_completed, subscription_changed, subscription_deleted, invoice_paid,
  invoice_payment_failed, other_event, Env, is_lead_finder_tier,
}
use conference_contact.Numerals.{parse_int}
use conference_contact.Credits.{increment_credits, add_credit_grant}
use conference_contact.Subscriptions.Rows.{put_subscription, find_by_stripe_id}
use conference_contact.Subscriptions.Sync.{sync_subscription_from_stripe}

-- `invoice.amount_paid || invoice.amount_due`
abbrev pub invoice_amount : StripeInvoice → ℕ
invoice_amount i = if i.amount_paid == 0 then i.amount_due else i.amount_paid

abbrev is_paid : InvoiceStatus → Bool
is_paid paid = true
is_paid _ = false

abbrev stamped_credits : Option String → Option ℕ
stamped_credits none = none
stamped_credits (some text) = parse_int text

module _ (env : Env) where
  grant_pack : CheckoutSession → Option ℕ → Option ℕ → Action (Unit {0})
  grant_pack session none credits = skip
  grant_pack session (some user_id) none = skip
  grant_pack session (some user_id) (some credits) = if credits == 0 then skip else do
    increment_credits user_id credits
    add_credit_grant (record {
      id = env.fresh;
      user_id = user_id;
      credits = credits;
      source = credit_pack_purchase;
      amount_paid_cents = session.amount_total;
      stripe_reference = some session.id;
      created_at = env.now;
    })
    emit (audit (some user_id) "billing.credits_purchased" none)

  unfoldable pub handle_credits_checkout_completed : CheckoutSession → Action (Unit {0})
  unfolding grant_pack
  handle_credits_checkout_completed session =
      grant_pack session session.metadata.user_id (stamped_credits session.metadata.credits)

  -- The confirmation goes to the user and the plan of the metadata, if both exist.
  confirm : Option ℕ → Option ℕ → Action (Unit {0})
  confirm (some user_id) (some plan_id) = do
    known ← gets (λ db. is_some (find_first (λ p. p.id == plan_id) db.plans))
    if known then mail_user user_id "subscription-confirmed" else skip
  confirm (some user_id) none = skip
  confirm none plan_id = skip

  send_subscription_confirmed_email : StripeSubscription → Action (Unit {0})
  unfolding confirm
  send_subscription_confirmed_email s =
      if is_lead_finder_tier s.metadata then skip else confirm s.metadata.user_id s.metadata.plan_id

  mark_row_past_due : Option Subscription → Action (Unit {0})
  mark_row_past_due none = skip
  mark_row_past_due (some row) = do
    put_subscription (record row {
      status = past_due;
      past_due_since = some (or_else row.past_due_since env.now);
    })
    if is_some row.past_due_since then skip else mail_user row.user_id "payment-failed"

  unfoldable pub mark_past_due : ℕ → Action (Unit {0})
  unfolding mark_row_past_due
  mark_past_due stripe_id = do
    existing ← gets (find_by_stripe_id stripe_id)
    mark_row_past_due existing

  invoice_row : StripeInvoice → InvoiceStatus → Subscription → Invoice
  invoice_row i status sub = record {
    id = env.fresh;
    subscription_id = sub.id;
    stripe_invoice_id = i.id;
    amount_cents = invoice_amount i;
    currency = i.currency;
    status = status;
    pdf_url = i.invoice_pdf;
    paid_at = if is_paid status then some env.now else none;
  }

  -- the `update` of the upsert
  updated_invoice : StripeInvoice → InvoiceStatus → Invoice → Invoice
  updated_invoice i status row = record row {
    status = status;
    amount_cents = invoice_amount i;
    pdf_url = i.invoice_pdf;
    paid_at = if is_paid status then some env.now else none;
  }

  unfoldable pub upsert_invoice :
      StripeInvoice → InvoiceStatus → Option Subscription → Action (Unit {0})
  unfolding invoice_row updated_invoice
  upsert_invoice i status none = skip
  upsert_invoice i status (some sub) = modify λ db. record db {
    invoices =
        if is_some (find_first (λ r. r.stripe_invoice_id == i.id) db.invoices)
        then update_where (λ r. r.stripe_invoice_id == i.id) (updated_invoice i status) db.invoices
        else db.invoices ++ invoice_row i status sub ∷ [];
  }

  sync_referenced_invoice : Option ℕ → StripeInvoice → InvoiceStatus → Action (Unit {0})
  sync_referenced_invoice none i status = skip
  sync_referenced_invoice (some id) i status = do
    local_sub ← gets (find_by_stripe_id id)
    upsert_invoice i status local_sub

  unfoldable pub sync_invoice_from_stripe : StripeInvoice → InvoiceStatus → Action (Unit {0})
  unfolding sync_referenced_invoice
  sync_invoice_from_stripe i status = sync_referenced_invoice i.subscription i status

  subscription_completed : Option ℕ → Action (Unit {0})
  unfolding send_subscription_confirmed_email
  subscription_completed none = skip
  subscription_completed (some id) = do
    s ← or_raise (env.stripe.retrieve id) stripe_failure
    sync_subscription_from_stripe env s
    send_subscription_confirmed_email s

  completed : SessionMode → CheckoutSession → Action (Unit {0})
  completed payment session = handle_credits_checkout_completed session
  completed subscription session = subscription_completed session.subscription
  completed setup session = skip

  -- `updateMany` leaves every other field, `pastDueSince` too
  unfoldable pub cancel_rows : ℕ → Action (Unit {0})
  cancel_rows stripe_id = modify λ db. record db {
    subscriptions =
        update_where (λ s. s.stripe_subscription_id == stripe_id)
          (λ s. record s { status = canceled }) db.subscriptions;
  }

  payment_failed : Option ℕ → Action (Unit {0})
  payment_failed none = skip
  payment_failed (some id) = mark_past_due id

  unfoldable pub handle_webhook_event : Event → Action (Unit {0})
  unfolding completed subscription_completed payment_failed
  handle_webhook_event (checkout_completed session) = completed session.mode session
  handle_webhook_event (subscription_changed s) = sync_subscription_from_stripe env s
  handle_webhook_event (subscription_deleted id) = cancel_rows id
  handle_webhook_event (invoice_paid i) = sync_invoice_from_stripe i paid
  handle_webhook_event (invoice_payment_failed i) = do
    sync_invoice_from_stripe i open_invoice
    payment_failed i.subscription
  handle_webhook_event other_event = skip
