-- ===== src/Webhooks.antt =====
-- src/subscriptions/stripe-webhook.processor.ts: one event through both billing services.
pub mod Ledger
pub mod GraceClock
use conference_contact.Prelude.{List, [], ◌∷◌}
use conference_contact.Schema.{Db}
use conference_contact.Action.{Action, ◌>>=◌, ◌>>◌}
use conference_contact.Stripe.{Event, Env}
use conference_contact.Subscriptions.Webhook.{handle_webhook_event}
use conference_contact.LeadFinderBilling.Webhook.{handle_tier_webhook_event}

unfoldable pub process : Env → Event → Action (Unit {0})
process env event = do handle_webhook_event env event; handle_tier_webhook_event env event

-- Events one after the other, each at its time, whether the job before returned or threw: the
-- queue has one worker.
unfoldable pub process_all : List (Env × Event) → Db → Db
process_all [] db = db
process_all ((env, event) ∷ rest) db = process_all rest (process env event db).1
