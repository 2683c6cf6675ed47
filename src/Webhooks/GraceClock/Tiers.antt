-- ===== src/Webhooks/GraceClock/Tiers.antt =====
-- The writes of the Lead Finder tiers keep the invariant of the grace periods.
use conference_contact.Prelude.{ℕ, arith, some, ◌==◌, update_where, ◌++◌, [], ◌∷◌}
use conference_contact.Prelude.Rows.Updates.{All-update_where, All-append}
use conference_contact.Schema.{Db}
use conference_contact.Schema.Billing.{LeadFinderSubscription, canceled}
use conference_contact.Action.Keeps.{Keeps, Keeps-modify, keeps_rules}
use conference_contact.Stripe.{Env, StripeSubscription}
use conference_contact.LeadFinderBilling.Rows.{put_tier_subscription, add_tier_subscription}
use conference_contact.LeadFinderBilling.Webhook.{
  updated_tier_row, created_tier_row, cancel_tier_rows,
}
use conference_contact.LeadFinderBilling.Webhook.Paths.{TierWrites}
use conference_contact.Webhooks.GraceClock.Stamps.{
  Stamped, KeepsStamps, KeepsStamps-IsStable, canceled_stamp, granted_stamped,
}

module _ (s : LeadFinderSubscription) (stamp : Stamped s.status s.past_due_since) where
  tier_put :
      (db : Db)
      → KeepsStamps db (record db {
        lead_finder_subscriptions =
            update_where (λ r. r.id == s.id) (λ r. s) db.lead_finder_subscriptions;
      })
  tier_put db h = record {
    directory = h.directory;
    tiers =
        All-update_where (λ (r : LeadFinderSubscription). Stamped r.status r.past_due_since) _
          (λ r. s) (λ r k. stamp) db.lead_finder_subscriptions h.tiers;
  }

  tier_add :
      (db : Db)
      → KeepsStamps db
          (record db { lead_finder_subscriptions = db.lead_finder_subscriptions ++ s ∷ [] })
  tier_add db h = record {
    directory = h.directory;
    tiers =
        All-append (λ (r : LeadFinderSubscription). Stamped r.status r.past_due_since)
          db.lead_finder_subscriptions s h.tiers stamp;
  }

  put_tier_stamped : Keeps KeepsStamps (put_tier_subscription s)
  unfolding put_tier_subscription
  put_tier_stamped = search (keeps_rules, KeepsStamps-IsStable, Keeps-modify, tier_put)

  add_tier_stamped : Keeps KeepsStamps (add_tier_subscription s)
  unfolding add_tier_subscription
  add_tier_stamped = search (keeps_rules, KeepsStamps-IsStable, Keeps-modify, tier_add)

tier_synced_stamp :
    (env : Env) (s : StripeSubscription) (row : LeadFinderSubscription)
    → Stamped
        (updated_tier_row env s (some row) row).status
        (updated_tier_row env s (some row) row).past_due_since
unfolding updated_tier_row
tier_synced_stamp env s row = λ p. ground arith

tier_created_stamp :
    (env : Env) (s : StripeSubscription) (user_id tier_id : ℕ)
    → Stamped
        (created_tier_row env s user_id tier_id).status
        (created_tier_row env s user_id tier_id).past_due_since
unfolding created_tier_row
tier_created_stamp env s user_id tier_id = λ p. ground arith

cancel_tier_stamped : (env : Env) (id : ℕ) → Keeps KeepsStamps (cancel_tier_rows env id)
unfolding cancel_tier_rows
cancel_tier_stamped env id = Keeps-modify _ λ db h. record {
  directory = h.directory;
  tiers =
      All-update_where (λ (r : LeadFinderSubscription). Stamped r.status r.past_due_since)
        (λ r. r.stripe_subscription_id == id) (λ r. record r { status = canceled })
        (λ r k. canceled_stamp r.past_due_since) db.lead_finder_subscriptions h.tiers;
}

pub tier_stamps : (env : Env) → TierWrites env KeepsStamps
tier_stamps env = record {
  stable = KeepsStamps-IsStable;
  synced = λ s row. put_tier_stamped _ (tier_synced_stamp env s row);
  created = λ s user_id tier_id. add_tier_stamped _ (tier_created_stamp env s user_id tier_id);
  deleted = cancel_tier_stamped env;
  granted = granted_stamped;
}
