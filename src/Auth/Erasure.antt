-- ===== src/Auth/Erasure.antt =====
-- `deleteAccount` of src/auth/auth.service.ts.
pub mod Laws
use conference_contact.Prelude.{
  ℕ, String, Bool, true, false, not, ◌&&◌, Option, none, some, List, ◌==◌, find_first, update_where,
  is_some, if◌then◌else◌,
}
use Prim.Native.String.{◌++◌ as str_append}
use conference_contact.Schema.{Db, stripe_cancel, audit}
use conference_contact.Schema.Accounts.{User, Session, deleted}
use conference_contact.Schema.Billing.{Subscription, canceled}
use conference_contact.Action.{
  Action, unauthorized, stripe_failure, raise_if, gets, or_raise, skip, modify, emit, ◌>>=◌, ◌>>◌,
}
use conference_contact.AuthEnv.{AuthEnv}
use conference_contact.Guards.{find_user, live_filter}
use conference_contact.Numerals.{print_int}
use conference_contact.Revocation.{revoke_user}
use conference_contact.Sessions.{revoked_now}

abbrev pub erased : ℕ → User → User
erased now u = record u {
  status = deleted;
  deleted_at = some now;
  email = str_append "deleted-" (str_append (print_int u.id) "@deleted.invalid");
}

abbrev pub ended : Subscription → Subscription
ended s = record s { status = canceled; cancel_at_period_end = false }

abbrev pub subscription_ended : Option Subscription → List Subscription → List Subscription
subscription_ended none rows = rows
subscription_ended (some s) rows = update_where (λ r. r.id == s.id) ended rows

module _ (env : AuthEnv) (cancel_at_stripe : ℕ → Bool) where
  abbrev cancel_active : Option Subscription → Action (Unit {0})
  cancel_active none = skip
  cancel_active (some s) = do
    raise_if (not (cancel_at_stripe s.stripe_subscription_id)) stripe_failure
    emit (stripe_cancel s.stripe_subscription_id)

  -- the transaction
  unfoldable pub erase : ℕ → Option Subscription → Db → Db
  erase user_id active_subscription db = record db {
    subscriptions = subscription_ended active_subscription db.subscriptions;
    sessions =
        update_where (λ s. s.user_id == user_id && not (is_some s.revoked_at)) (revoked_now env.now)
          db.sessions;
    users = update_where (λ u. u.id == user_id) (erased env.now) db.users;
  }

  unfoldable pub delete_account : ℕ → ℕ → Action (Unit {0})
  unfolding erase
  delete_account user_id password = do
    user ← or_raise (← gets (find_user user_id)) unauthorized
    raise_if (not (env.password_matches user.password_hash password)) unauthorized
    active_subscription ← gets (λ db. find_first (live_filter user_id) db.subscriptions)
    cancel_active active_subscription
    modify (erase user_id active_subscription)
    revoke_user env.redis_up env.access_token_ttl_seconds user_id env.now
    emit (audit (some user_id) "auth.account_deletion_requested" none)
