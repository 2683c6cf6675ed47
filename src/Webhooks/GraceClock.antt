-- ===== src/Webhooks/GraceClock.antt =====
-- Every past-due row of either product carries the date from which its grace period counts.
mod Stamps
mod Directory
mod Tiers
pub use Stamps.{IsStamped, KeepsStamps}
use conference_contact.Prelude.{
  ℕ, ◌≡◌, ◌≢◌, refl, arith, if◌then◌else◌, Option, none, some, All, List, ◌==◌, Bool-cases, inl,
  inr, update_where, or_else, ◌++◌, [], ◌∷◌,
}
use conference_contact.Prelude.Rows.Updates.{All-update_where, All-append}
use conference_contact.Schema.{Db}
use conference_contact.Schema.Billing.{
  CreditGrant, Subscription, InvoiceStatus, LeadFinderSubscription, SubscriptionStatus, past_due,
  canceled,
}
use conference_contact.Action.{Action, ◌>>=◌, ◌>>◌, modify, raise, skip, emit, gets, or_raise}
use conference_contact.Action.Keeps.{Keeps, Keeps-modify, IsStable, keeps_rules}
use conference_contact.Credits.{increment_credits, add_credit_grant}
use conference_contact.Stripe.{Event, Env, StripeInvoice, StripeSubscription}
use conference_contact.Subscriptions.Rows.{put_subscription, add_subscription, index_violated}
use conference_contact.Subscriptions.Sync.{map_stripe_sub_to_update, created_row}
use conference_contact.Subscriptions.Webhook.{cancel_rows, upsert_invoice}
use conference_contact.Subscriptions.Webhook.Paths.{DirectoryWrites, handle_webhook_event-Keeps}
use conference_contact.LeadFinderBilling.Rows.{
  put_tier_subscription, add_tier_subscription, tier_index_violated,
}
use conference_contact.LeadFinderBilling.Webhook.{
  updated_tier_row, created_tier_row, cancel_tier_rows,
}
use conference_contact.LeadFinderBilling.Webhook.Paths.{TierWrites, handle_tier_webhook_event-Keeps}
use conference_contact.Webhooks.{process, process_all}
use Stamps.{KeepsStamps-IsStable}
use Directory.{directory_stamps}
use Tiers.{tier_stamps}

process_stamped : (env : Env) (event : Event) → Keeps KeepsStamps (process env event)
unfolding process
process_stamped env event = search (
  keeps_rules,
  KeepsStamps-IsStable,
  handle_webhook_event-Keeps env (directory_stamps env),
  handle_tier_webhook_event-Keeps env (tier_stamps env),
)

-- From a database in which every past-due row of both products says since when, any sequence of
-- events, processed or failing, leads to one in which every past-due row still does.
pub process_all-IsStamped :
    (events : List (Env × Event)) (db : Db) → IsStamped db → IsStamped (process_all events db)
unfolding process_all
process_all-IsStamped [] db h = h
process_all-IsStamped ((env, event) ∷ rest) db h =
    process_all-IsStamped rest (process env event db).1 ((process_stamped env event).at db h)
