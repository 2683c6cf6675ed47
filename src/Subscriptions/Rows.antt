-- ===== src/Subscriptions/Rows.antt =====
-- The rows of the subscriptions table, under the partial unique index of the migration
-- one_active_subscription_per_user: one live row per user.
use conference_contact.Prelude.{
  ℕ, Bool, not, ◌&&◌, Option, List, [], ◌∷◌, ◌++◌, ◌==◌, any, find_first, update_where,
  if◌then◌else◌,
}
use conference_contact.Schema.{Db}
use conference_contact.Schema.Billing.{Subscription, is_live}
use conference_contact.Action.{Action, unique_violation, raise, gets, modify, ◌>>=◌}

-- Whether the row, written over the one with its id or added, breaks the index.
unfoldable pub index_violated : Subscription → List Subscription → Bool
index_violated s rows =
    is_live s.status
    && any (λ r. is_live r.status && (r.user_id == s.user_id && not (r.id == s.id))) rows

unfoldable pub put_subscription : Subscription → Action (Unit {0})
unfolding index_violated ◌>>=◌
put_subscription s = do
  violated ← gets (λ db. index_violated s db.subscriptions)
  if violated
      then raise unique_violation
      else modify (λ db. record db {
        subscriptions = update_where (λ r. r.id == s.id) (λ r. s) db.subscriptions;
      })

unfoldable pub add_subscription : Subscription → Action (Unit {0})
unfolding index_violated ◌>>=◌
add_subscription s = do
  violated ← gets (λ db. index_violated s db.subscriptions)
  if violated
      then raise unique_violation
      else modify (λ db. record db { subscriptions = db.subscriptions ++ s ∷ [] })

abbrev pub find_by_stripe_id : ℕ → Db → Option Subscription
find_by_stripe_id id db = find_first (λ s. s.stripe_subscription_id == id) db.subscriptions
