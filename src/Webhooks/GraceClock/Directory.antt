-- ===== src/Webhooks/GraceClock/Directory.antt =====
-- The writes of the Directory service keep the invariant of the grace periods.
use conference_contact.Prelude.{ℕ, arith, Option, none, some, ◌==◌, update_where, ◌++◌, [], ◌∷◌}
use conference_contact.Prelude.Rows.Updates.{All-update_where, All-append}
use conference_contact.Schema.{Db}
use conference_contact.Schema.Billing.{Subscription, InvoiceStatus, canceled}
use conference_contact.Action.Keeps.{Keeps, Keeps-modify, keeps_rules}
use conference_contact.Stripe.{Env, StripeInvoice, StripeSubscription}
use conference_contact.Subscriptions.Rows.{put_subscription, add_subscription}
use conference_contact.Subscriptions.Sync.{map_stripe_sub_to_update, created_row}
use conference_contact.Subscriptions.Webhook.{cancel_rows, upsert_invoice}
use conference_contact.Subscriptions.Webhook.Paths.{DirectoryWrites}
use conference_contact.Webhooks.GraceClock.Stamps.{
  Stamped, KeepsStamps, KeepsStamps-IsStable, canceled_stamp, granted_stamped,
}

module _ (s : Subscription) (stamp : Stamped s.status s.past_due_since) where
  directory_put :
      (db : Db)
      → KeepsStamps db
          (record db { subscriptions = update_where (λ r. r.id == s.id) (λ r. s) db.subscriptions })
  directory_put db h = record {
    directory =
        All-update_where (λ (r : Subscription). Stamped r.status r.past_due_since) _ (λ r. s)
          (λ r k. stamp) db.subscriptions h.directory;
    tiers = h.tiers;
  }

  directory_add :
      (db : Db) → KeepsStamps db (record db { subscriptions = db.subscriptions ++ s ∷ [] })
  directory_add db h = record {
    directory =
        All-append (λ (r : Subscription). Stamped r.status r.past_due_since) db.subscriptions s
          h.directory stamp;
    tiers = h.tiers;
  }

  put_stamped : Keeps KeepsStamps (put_subscription s)
  unfolding put_subscription
  put_stamped = search (keeps_rules, KeepsStamps-IsStable, Keeps-modify, directory_put)

  add_stamped : Keeps KeepsStamps (add_subscription s)
  unfolding add_subscription
  add_stamped = search (keeps_rules, KeepsStamps-IsStable, Keeps-modify, directory_add)

-- What the services write is stamped.
synced_stamp :
    (now : ℕ) (s : StripeSubscription) (row : Subscription)
    → Stamped
        (map_stripe_sub_to_update now s row.past_due_since row).status
        (map_stripe_sub_to_update now s row.past_due_since row).past_due_since
unfolding map_stripe_sub_to_update
synced_stamp now s row = λ p. ground arith

created_stamp :
    (env : Env) (s : StripeSubscription) (user_id plan_id : ℕ)
    → Stamped
        (created_row env s user_id plan_id).status
        (created_row env s user_id plan_id).past_due_since
unfolding created_row
created_stamp env s user_id plan_id = λ p. ground arith

cancel_stamped : (env : Env) (id : ℕ) → Keeps KeepsStamps (cancel_rows env id)
unfolding cancel_rows
cancel_stamped env id = Keeps-modify _ λ db h. record {
  directory =
      All-update_where (λ (r : Subscription). Stamped r.status r.past_due_since)
        (λ r. r.stripe_subscription_id == id) (λ r. record r { status = canceled })
        (λ r k. canceled_stamp r.past_due_since) db.subscriptions h.directory;
  tiers = h.tiers;
}

invoice_stamped :
    (env : Env) (i : StripeInvoice) (status : InvoiceStatus) (sub : Option Subscription)
    → Keeps KeepsStamps (upsert_invoice env i status sub)
unfolding upsert_invoice
invoice_stamped env i status none = search (keeps_rules, KeepsStamps-IsStable)
invoice_stamped env i status (some sub) =
    Keeps-modify _ λ db h. record { directory = h.directory; tiers = h.tiers }

pub directory_stamps : (env : Env) → DirectoryWrites env KeepsStamps
directory_stamps env = record {
  stable = KeepsStamps-IsStable;
  synced = λ s row. put_stamped _ (synced_stamp env.now s row);
  created = λ s user_id plan_id. add_stamped _ (created_stamp env s user_id plan_id);
  failed = λ row. put_stamped _ (λ p q. cc);
  deleted = cancel_stamped env;
  invoiced = invoice_stamped env;
  granted = granted_stamped;
}
