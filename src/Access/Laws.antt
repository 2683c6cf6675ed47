-- ===== src/Access/Laws.antt =====
-- The grace period, as src/subscriptions/subscription-access.util.ts grants and reports it.
use conference_contact.Prelude.{ℕ, ◌≤◌, ◌<◌, ◌≡◌, ◌↔◌, true, some, arith}
use conference_contact.Schema.Billing.{past_due}
use conference_contact.Access.{AccessCheckSubscription, has_active_access, days_past_due}

-- A past-due subscription grants access exactly while the whole number of days past due that the
-- status page reports is below the grace period.
pub active_access-days_past_due :
    (s : AccessCheckSubscription) (grace now since days : ℕ)
    → s.status ≡ past_due
    → s.past_due_since ≡ some since
    → since ≤ now
    → days_past_due s.past_due_since now ≡ some days
    → (has_active_access s grace now ≡ true) ↔ (days < grace)
unfolding has_active_access days_past_due
active_access-days_past_due s grace now since days p e h d = ground arith
