-- ===== src/RenewalReminder.antt =====
-- `sendDueReminders` of src/renewal-reminder/renewal-reminder.service.ts.
mod Marks
pub mod Laws
use conference_contact.Prelude.{
  ℕ, ◌+◌, ◌*◌, Bool, true, false, not, ◌&&◌, some, List, [], ◌∷◌, ◌==◌, leb, find_first,
  filter_where, update_where, is_some, is_value, if◌then◌else◌,
}
use conference_contact.Schema.Billing.{
  Subscription, LeadFinderSubscription, SubscriptionStatus, trialing, active,
}
use conference_contact.Action.{Action, pure, gets, modify, mail_user, ◌>>=◌, ◌>>◌}

abbrev pub reminder_window_start_days : ℕ
reminder_window_start_days = 6

abbrev pub reminder_window_end_days : ℕ
reminder_window_end_days = 8

-- `status: { in: ['ACTIVE', 'TRIALING'] }`
abbrev pub is_renewing : SubscriptionStatus → Bool
is_renewing trialing = true
is_renewing active = true
is_renewing _ = false

-- `gte: windowStart, lte: windowEnd`
abbrev pub in_window : ℕ → ℕ → Bool
in_window now period_end =
    leb (now + reminder_window_start_days * 86400000) period_end
    && leb period_end (now + reminder_window_end_days * 86400000)

abbrev pub is_due : ℕ → Subscription → Bool
is_due now s =
    is_renewing s.status && (not s.cancel_at_period_end && in_window now s.current_period_end)

abbrev pub tier_is_due : ℕ → LeadFinderSubscription → Bool
tier_is_due now s =
    is_renewing s.status && (not s.cancel_at_period_end && in_window now s.current_period_end)

-- One round of a loop, and what it adds to `sent`. A failed update is caught, and counts nothing.
unfoldable pub remind : Subscription → Action ℕ
remind s =
    if is_value s.renewal_reminder_sent_for_period_end s.current_period_end then pure 0 else do
      mail_user s.user_id "renewal-reminder"
      known ← gets (λ db. is_some (find_first (λ r. r.id == s.id) db.subscriptions))
      modify (λ db. record db {
        subscriptions =
            update_where (λ r. r.id == s.id)
              (λ r. record r { renewal_reminder_sent_for_period_end = some s.current_period_end })
              db.subscriptions;
      })
      pure (if known then 1 else 0)

unfoldable pub remind_tier : LeadFinderSubscription → Action ℕ
remind_tier s =
    if is_value s.renewal_reminder_sent_for_period_end s.current_period_end then pure 0 else do
      mail_user s.user_id "renewal-reminder"
      known ← gets (λ db. is_some (find_first (λ r. r.id == s.id) db.lead_finder_subscriptions))
      modify (λ db. record db {
        lead_finder_subscriptions =
            update_where (λ r. r.id == s.id)
              (λ r. record r { renewal_reminder_sent_for_period_end = some s.current_period_end })
              db.lead_finder_subscriptions;
      })
      pure (if known then 1 else 0)

-- `for (const row of rows)`, adding up
unfoldable pub each {ℓ} : {A : Type ℓ} → (A → Action ℕ) → List A → Action ℕ
each f [] = pure 0
each f (x ∷ xs) = do one ← f x; rest ← each f xs; pure (one + rest)

unfoldable pub send_due_reminders : ℕ → Action ℕ
unfolding each remind remind_tier
send_due_reminders now = do
  directory ← gets (λ db. filter_where (is_due now) db.subscriptions)
  sent ← each remind directory
  tiers ← gets (λ db. filter_where (tier_is_due now) db.lead_finder_subscriptions)
  sent' ← each remind_tier tiers
  pure (sent + sent')
