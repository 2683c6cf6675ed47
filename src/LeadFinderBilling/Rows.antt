-- ===== src/LeadFinderBilling/Rows.antt =====
-- The rows of lead_finder_subscriptions, under their partial unique index: one live row per user.
use conference_contact.Prelude.{
  ℕ, Bool, not, ◌&&◌, Option, List, [], ◌∷◌, ◌++◌, ◌==◌, any, find_first, update_where,
  if◌then◌else◌,
}
use conference_contact.Schema.{Db}
use conference_contact.Schema.Billing.{LeadFinderSubscription, is_live}
use conference_contact.Action.{Action, unique_violation, raise, gets, modify, ◌>>=◌}

unfoldable pub tier_index_violated : LeadFinderSubscription → List LeadFinderSubscription → Bool
tier_index_violated s rows =
    is_live s.status
    && any (λ r. is_live r.status && (r.user_id == s.user_id && not (r.id == s.id))) rows

unfoldable pub put_tier_subscription : LeadFinderSubscription → Action (Unit {0})
unfolding tier_index_violated ◌>>=◌
put_tier_subscription s = do
  violated ← gets (λ db. tier_index_violated s db.lead_finder_subscriptions)
  if violated
      then raise unique_violation
      else modify (λ db. record db {
        lead_finder_subscriptions =
            update_where (λ r. r.id == s.id) (λ r. s) db.lead_finder_subscriptions;
      })

unfoldable pub add_tier_subscription : LeadFinderSubscription → Action (Unit {0})
unfolding tier_index_violated ◌>>=◌
add_tier_subscription s = do
  violated ← gets (λ db. tier_index_violated s db.lead_finder_subscriptions)
  if violated
      then raise unique_violation
      else modify
          (λ db. record db { lead_finder_subscriptions = db.lead_finder_subscriptions ++ s ∷ [] })

abbrev pub find_tier_by_stripe_id : ℕ → Db → Option LeadFinderSubscription
find_tier_by_stripe_id id db =
    find_first (λ s. s.stripe_subscription_id == id) db.lead_finder_subscriptions
