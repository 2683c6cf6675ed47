-- ===== src/Access.antt =====
-- src/subscriptions/subscription-access.util.ts. `new Date()` is the argument `now`.
pub mod Laws
use conference_contact.Prelude.{
  ℕ, ◌+◌, ◌-◌, ◌*◌, ◌/◌, Bool, true, false, ◌||◌, Option, none, some, ltb,
}
use conference_contact.Schema.Billing.{
  SubscriptionStatus, trialing, active, past_due, canceled, expired, is_canceled,
}

-- The two fields of a subscription of either product that decide about access.
pub record AccessCheckSubscription : Type 0 where
  pub status : SubscriptionStatus
  pub past_due_since : Option ℕ

abbrev pub day_ms : ℕ
day_ms = 24 * 60 * 60 * 1000

-- The branch of a PAST_DUE row.
within_grace : Option ℕ → ℕ → ℕ → Bool
within_grace none grace_period_days now = true
within_grace (some since) grace_period_days now = ltb now (since + grace_period_days * day_ms)

-- The tests on `status`, in the order of the source.
active_access : SubscriptionStatus → Option ℕ → ℕ → ℕ → Bool
active_access active since grace_period_days now = true
active_access trialing since grace_period_days now = true
active_access past_due since grace_period_days now = within_grace since grace_period_days now
active_access canceled since grace_period_days now = false
active_access expired since grace_period_days now = false

unfoldable pub has_active_access : AccessCheckSubscription → ℕ → ℕ → Bool
unfolding active_access within_grace
has_active_access s grace_period_days now =
    active_access s.status s.past_due_since grace_period_days now

-- `Math.max(0, Math.floor(elapsedMs / day))`: subtraction and division on ℕ stop at 0 alike
unfoldable pub days_past_due : Option ℕ → ℕ → Option ℕ
days_past_due none now = none
days_past_due (some since) now = some ((now - since) / day_ms)

unfoldable pub has_directory_access : AccessCheckSubscription → ℕ → ℕ → Bool
unfolding has_active_access
has_directory_access s grace_period_days now =
    has_active_access s grace_period_days now || is_canceled s.status
