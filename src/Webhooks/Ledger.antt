-- ===== src/Webhooks/Ledger.antt =====
-- Every credit that a Stripe event adds to a balance is in the ledger of grants, and back.
use conference_contact.Prelude.{ℕ, Option, none, some, ◌+◌, ◌≡◌, refl, arith}
use conference_contact.Schema.{Db}
use conference_contact.Schema.Billing.{Subscription, InvoiceStatus, LeadFinderSubscription}
use conference_contact.Action.{modify, raise, skip}
use conference_contact.Action.Keeps.{Keeps, keeps_rules}
use conference_contact.Stripe.{Event, Env, StripeInvoice}
use conference_contact.Credits.Ledger.{balance, granted, Ledger, Ledger-IsStable, Keeps-granted}
use conference_contact.Subscriptions.Rows.{put_subscription, add_subscription}
use conference_contact.Subscriptions.Webhook.{cancel_rows, upsert_invoice}
use conference_contact.Subscriptions.Webhook.Paths.{DirectoryWrites, handle_webhook_event-Keeps}
use conference_contact.LeadFinderBilling.Rows.{put_tier_subscription, add_tier_subscription}
use conference_contact.LeadFinderBilling.Webhook.{cancel_tier_rows}
use conference_contact.LeadFinderBilling.Webhook.Paths.{TierWrites, handle_tier_webhook_event-Keeps}
use conference_contact.Webhooks.{process}

put-Ledger : (s : Subscription) → Keeps Ledger (put_subscription s)
unfolding put_subscription raise modify
put-Ledger s = record { at = λ db id. ground arith }

add-Ledger : (s : Subscription) → Keeps Ledger (add_subscription s)
unfolding add_subscription raise modify
add-Ledger s = record { at = λ db id. ground arith }

put_tier-Ledger : (s : LeadFinderSubscription) → Keeps Ledger (put_tier_subscription s)
unfolding put_tier_subscription raise modify
put_tier-Ledger s = record { at = λ db id. ground arith }

add_tier-Ledger : (s : LeadFinderSubscription) → Keeps Ledger (add_tier_subscription s)
unfolding add_tier_subscription raise modify
add_tier-Ledger s = record { at = λ db id. ground arith }

invoice-Ledger :
    (env : Env) (i : StripeInvoice) (status : InvoiceStatus) (sub : Option Subscription)
    → Keeps Ledger (upsert_invoice env i status sub)
unfolding upsert_invoice skip modify
invoice-Ledger env i status none = record { at = λ db id. refl }
invoice-Ledger env i status (some sub) = record { at = λ db id. refl }

directory-Ledger : (env : Env) → DirectoryWrites env Ledger
unfolding cancel_rows modify
directory-Ledger env = record {
  stable = Ledger-IsStable;
  synced = λ s row. put-Ledger _;
  created = λ s user_id plan_id. add-Ledger _;
  failed = λ row. put-Ledger _;
  deleted = λ id. record { at = λ db u. refl };
  invoiced = invoice-Ledger env;
  granted = Keeps-granted;
}

tier-Ledger : (env : Env) → TierWrites env Ledger
unfolding cancel_tier_rows modify
tier-Ledger env = record {
  stable = Ledger-IsStable;
  synced = λ s row. put_tier-Ledger _;
  created = λ s user_id tier_id. add_tier-Ledger _;
  deleted = λ id. record { at = λ db u. refl };
  granted = Keeps-granted;
}

process-Ledger : (env : Env) (event : Event) → Keeps Ledger (process env event)
unfolding process
process-Ledger env event = search (
  keeps_rules,
  Ledger-IsStable,
  handle_webhook_event-Keeps env (directory-Ledger env),
  handle_tier_webhook_event-Keeps env (tier-Ledger env),
)

-- Whatever the event, and whether the job returns or throws, each user's balance of Lead Finder
-- credits changes by exactly what the ledger of credit grants gains for that user.
pub process_ledger :
    (env : Env) (event : Event) (db : Db) (id : ℕ)
    → let (r, after) = process env event db in
      balance id after + granted id db.credit_grants
      ≡ balance id db + granted id after.credit_grants
process_ledger env event db id = (process-Ledger env event).at db id
