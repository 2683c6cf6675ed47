-- ===== src/Subscriptions/Status.antt =====
-- `getStatus`, `cancel` and `resume` of src/subscriptions/subscriptions.service.ts.
pub mod Laws
use conference_contact.Prelude.{
  ℕ, String, Bool, true, false, not, ◌&&◌, ◌||◌, Option, none, some, ◌==◌, find_first, find_latest,
  if◌then◌else◌,
}
use conference_contact.Schema.{Db, stripe_cancel_at_period_end, audit}
use conference_contact.Schema.Accounts.{User, is_admin}
use conference_contact.Schema.Billing.{Plan, Subscription, SubscriptionStatus}
use conference_contact.Action.{
  Action, not_found, stripe_failure, gets, or_raise, raise_if, emit, mail_user, ◌>>=◌, ◌>>◌,
}
use conference_contact.Access.{has_directory_access, days_past_due}
use conference_contact.Guards.{find_user, access_check, live_filter, is_comped}
use conference_contact.Stripe.{Env}
use conference_contact.Subscriptions.Checkout.{find_live, update_subscription}

-- The two shapes of the answer. The foreign key rules out a row without a plan.
pub data StatusView : Type 0 where
  no_subscription : Bool → StatusView
  current : SubscriptionStatus → Option String → ℕ → Bool → Bool → Option ℕ → StatusView

abbrev pub view_access : StatusView → Bool
view_access (no_subscription access) = access
view_access (current status plan_name period_end cancels access days) = access

-- `user?.role === 'ADMIN' || user?.role === 'SUPER_ADMIN'`
abbrev pub is_admin_user : Option User → Bool
is_admin_user none = false
is_admin_user (some u) = is_admin u.role

abbrev plan_name_of : Option Plan → Option String
plan_name_of none = none
plan_name_of (some p) = some p.name

abbrev pub own_filter : ℕ → Subscription → Bool
own_filter user_id s = s.user_id == user_id

-- a live row with a pending cancellation
abbrev pub ending_filter : ℕ → Subscription → Bool
ending_filter user_id s = live_filter user_id s && s.cancel_at_period_end

module _ (env : Env) where
  -- the answer for the row that was found
  unfoldable pub status_view : Bool → Option Subscription → Db → StatusView
  status_view bypass none db = no_subscription bypass
  status_view bypass (some s) db =
      current s.status (plan_name_of (find_first (λ p. p.id == s.plan_id) db.plans))
        s.current_period_end s.cancel_at_period_end
        (bypass || has_directory_access (access_check s) env.grace_period_days env.now)
        (days_past_due s.past_due_since env.now)

  unfoldable pub get_status : ℕ → Db → StatusView
  unfolding status_view
  get_status user_id db =
      let user = find_user user_id db in
      status_view (is_admin_user user || is_comped user)
        (find_latest (own_filter user_id) (λ s. s.created_at) db.subscriptions) db

  -- `subscriptions.update(id, { cancel_at_period_end })`
  abbrev set_at_stripe : ℕ → Bool → Action (Unit {0})
  set_at_stripe id value = do
    raise_if (not (env.stripe.set_cancel_at_period_end id value)) stripe_failure
    emit (stripe_cancel_at_period_end id value)

  unfoldable pub cancel : ℕ → Action (Unit {0})
  cancel user_id = do
    s ← or_raise (← gets (find_live user_id)) not_found
    set_at_stripe s.stripe_subscription_id true
    update_subscription s.id (λ r. record r { cancel_at_period_end = true })
    emit (audit (some user_id) "billing.subscription_cancel_requested" (some s.id))
    mail_user s.user_id "cancellation-scheduled"

  unfoldable pub resume : ℕ → Action (Unit {0})
  resume user_id = do
    found ← gets (λ db. find_latest (ending_filter user_id) (λ s. s.created_at) db.subscriptions)
    s ← or_raise found not_found
    set_at_stripe s.stripe_subscription_id false
    update_subscription s.id (λ r. record r { cancel_at_period_end = false })
    emit (audit (some user_id) "billing.subscription_resumed" (some s.id))
