-- ===== src/Subscriptions/Sync.antt =====
-- The webhook half of src/subscriptions/subscriptions.service.ts.
use conference_contact.Prelude.{
  ℕ, ◌*◌, Bool, not, ◌&&◌, Option, none, some, ◌==◌, find_first, is_some, or_else, if◌then◌else◌,
}
use conference_contact.Schema.{Db, audit, stripe_cancel}
use conference_contact.Schema.Billing.{
  SubscriptionStatus, trialing, active, past_due, canceled, expired, Subscription, is_past_due,
}
use conference_contact.Action.{
  Action, foreign_key_violation, stripe_failure, raise, gets, ◌>>=◌, ◌>>◌, skip, raise_if, emit,
  on_unique_violation,
}
use conference_contact.Stripe.{
  StripeStatus, StripeSubscription, Env, is_lead_finder_tier, date_or_null,
}
use conference_contact.Subscriptions.Rows.{put_subscription, add_subscription, find_by_stripe_id}

unfoldable pub map_stripe_status : StripeStatus → SubscriptionStatus
map_stripe_status StripeStatus.trialing = trialing
map_stripe_status StripeStatus.active = active
map_stripe_status StripeStatus.past_due = past_due
map_stripe_status StripeStatus.unpaid = past_due
map_stripe_status StripeStatus.paused = past_due
map_stripe_status StripeStatus.canceled = canceled
map_stripe_status StripeStatus.incomplete = expired
map_stripe_status StripeStatus.incomplete_expired = expired

-- `status === 'PAST_DUE' ? (current ?? new Date()) : null`
abbrev pub next_past_due_since : SubscriptionStatus → Option ℕ → ℕ → Option ℕ
next_past_due_since status current now =
    if is_past_due status then some (or_else current now) else none

-- the row that `data: mapStripeSubToUpdate(stripeSub, currentPastDueSince)` writes
unfoldable pub map_stripe_sub_to_update :
    ℕ → StripeSubscription → Option ℕ → Subscription → Subscription
unfolding map_stripe_status
map_stripe_sub_to_update now s current row = record row {
  status = map_stripe_status s.status;
  current_period_start = s.current_period_start * 1000;
  current_period_end = s.current_period_end * 1000;
  cancel_at_period_end = s.cancel_at_period_end;
  trial_ends_at = date_or_null s.trial_end;
  past_due_since = next_past_due_since (map_stripe_status s.status) current now;
}

-- the foreign keys of a new row
unfoldable pub known_owner : ℕ → ℕ → Db → Bool
known_owner user_id plan_id db =
    is_some (find_first (λ u. u.id == user_id) db.users)
    && is_some (find_first (λ p. p.id == plan_id) db.plans)

module _ (env : Env) where
  unfoldable pub created_row : StripeSubscription → ℕ → ℕ → Subscription
  created_row s user_id plan_id = record {
    id = env.fresh;
    user_id = user_id;
    plan_id = plan_id;
    stripe_customer_id = s.customer;
    stripe_subscription_id = s.id;
    status = map_stripe_status s.status;
    current_period_start = s.current_period_start * 1000;
    current_period_end = s.current_period_end * 1000;
    cancel_at_period_end = s.cancel_at_period_end;
    trial_ends_at = date_or_null s.trial_end;
    past_due_since = if is_past_due (map_stripe_status s.status) then some env.now else none;
    renewal_reminder_sent_for_period_end = none;
    created_at = env.now;
  }

  -- `subscription.upsert`; the foreign keys of a new row are checked
  unfoldable pub upsert_subscription :
      StripeSubscription → ℕ → ℕ → Option Subscription → Action (Unit {0})
  unfolding created_row known_owner
  upsert_subscription s user_id plan_id (some row) =
      put_subscription (map_stripe_sub_to_update env.now s row.past_due_since row)
  upsert_subscription s user_id plan_id none = do
    known ← gets (known_owner user_id plan_id)
    if known then add_subscription (created_row s user_id plan_id) else raise foreign_key_violation

  abbrev pub cancel_at_stripe : ℕ → Action (Unit {0})
  cancel_at_stripe id = do
    raise_if (not (env.stripe.cancel id)) stripe_failure
    emit (stripe_cancel id)

  -- the branch for a duplicate, in the `catch`
  unfoldable pub prevent_duplicate : ℕ → ℕ → Action (Unit {0})
  prevent_duplicate user_id stripe_id = do
    cancel_at_stripe stripe_id
    emit (audit (some user_id) "billing.duplicate_subscription_prevented" (some stripe_id))

  unfoldable pub sync_without_metadata :
      StripeSubscription → Option Subscription → Action (Unit {0})
  sync_without_metadata s none = skip
  sync_without_metadata s (some row) =
      put_subscription (map_stripe_sub_to_update env.now s row.past_due_since row)

  unfoldable pub sync_with_metadata :
      StripeSubscription → ℕ → ℕ → Option Subscription → Action (Unit {0})
  sync_with_metadata s user_id plan_id existing =
      on_unique_violation
        (do
          upsert_subscription s user_id plan_id existing
          emit (audit (some user_id) "billing.subscription_synced" (some s.id)))
        (prevent_duplicate user_id s.id)

  abbrev pub sync_by_metadata :
      Option ℕ → Option ℕ → StripeSubscription → Option Subscription → Action (Unit {0})
  sync_by_metadata (some user_id) (some plan_id) s existing =
      sync_with_metadata s user_id plan_id existing
  sync_by_metadata (some user_id) none s existing = sync_without_metadata s existing
  sync_by_metadata none plan_id s existing = sync_without_metadata s existing

  unfoldable pub sync_subscription_from_stripe : StripeSubscription → Action (Unit {0})
  unfolding sync_without_metadata sync_with_metadata
  sync_subscription_from_stripe s = if is_lead_finder_tier s.metadata then skip else do
    existing ← gets (find_by_stripe_id s.id)
    sync_by_metadata s.metadata.user_id s.metadata.plan_id s existing
