-- ===== src/Credits.antt =====
-- The writes to a balance of Lead Finder credits and to the ledger of grants, which both billing
-- services make (src/subscriptions and src/lead-finder-billing).
pub mod Ledger
use conference_contact.Prelude.{ℕ, ◌+◌, List, [], ◌∷◌, ◌++◌, ◌==◌, find_first, update_where}
use conference_contact.Schema.{Db}
use conference_contact.Schema.Billing.{CreditGrant}
use conference_contact.Action.{Action, record_not_found, gets, or_raise, ◌>>=◌, ◌>>◌, modify}

-- `user.update({ leadFinderCredits: { increment } })`, which throws on a missing user
unfoldable pub increment_credits : ℕ → ℕ → Action (Unit {0})
increment_credits user_id credits = do
  or_raise (← gets (λ db. find_first (λ u. u.id == user_id) db.users)) record_not_found
  modify λ db. record db {
    users =
        update_where (λ u. u.id == user_id)
          (λ u. record u { lead_finder_credits = u.lead_finder_credits + credits }) db.users;
  }

unfoldable pub add_credit_grant : CreditGrant → Action (Unit {0})
add_credit_grant g = modify λ db. record db { credit_grants = db.credit_grants ++ g ∷ [] }
