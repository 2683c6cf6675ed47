-- ===== src/LeadSearch/Credits.antt =====
-- `hasUnlimitedLeadFinderAccess`, `hasPaidLeadFinderAccess`, `tryReserveCredit`, `refundCredit` and
-- `getFreeTierStatus` of src/leads/leads.service.ts.
use conference_contact.Prelude.{
  ℕ, ◌+◌, ◌-◌, Bool, true, false, ◌&&◌, ◌||◌, Option, none, some, ◌==◌, ltb, leb, any, find_first,
  update_where, count_where, if◌then◌else◌,
}
use conference_contact.Schema.{Db}
use conference_contact.Schema.Accounts.{User, is_admin}
use conference_contact.Schema.Billing.{LeadFinderSubscription, is_live, is_credit_pack_purchase}
use conference_contact.Action.{Action, pure, gets, skip, modify, ◌>>=◌, ◌>>◌}
use conference_contact.Access.{has_active_access}
use conference_contact.Guards.{find_user}
use conference_contact.Users.{update_user}

-- the test on the row that was found
abbrev pub unlimited : Option User → Bool
unlimited none = false
unlimited (some u) = is_admin u.role || u.admin_granted_lead_finder_access

unfoldable pub has_unlimited_lead_finder_access : ℕ → Db → Bool
has_unlimited_lead_finder_access user_id db = unlimited (find_user user_id db)

abbrev tier_admits : Option LeadFinderSubscription → ℕ → ℕ → Bool
tier_admits none grace now = false
tier_admits (some s) grace now =
    has_active_access (record { status = s.status; past_due_since = s.past_due_since }) grace now

unfoldable pub has_paid_lead_finder_access : ℕ → ℕ → ℕ → Db → Bool
unfolding has_unlimited_lead_finder_access
has_paid_lead_finder_access user_id grace now db =
    has_unlimited_lead_finder_access user_id db
    || (any (λ g. g.user_id == user_id && is_credit_pack_purchase g.source) db.credit_grants
        || tier_admits
            (find_first (λ s. s.user_id == user_id && is_live s.status)
              db.lead_finder_subscriptions)
            grace now)

-- `where: { id: userId, leadFinderCredits: { gt: 0 } }`
abbrev pub in_credit : ℕ → User → Bool
in_credit user_id u = u.id == user_id && ltb 0 u.lead_finder_credits

abbrev pub charged : User → User
charged u = record u { lead_finder_credits = u.lead_finder_credits - 1 }

abbrev pub refunded : User → User
refunded u = record u { lead_finder_credits = u.lead_finder_credits + 1 }

unfoldable pub try_reserve_credit : ℕ → Action Bool
try_reserve_credit user_id = do
  unlimited ← gets (has_unlimited_lead_finder_access user_id)
  if unlimited then pure true else do
    count ← gets (λ db. count_where (in_credit user_id) db.users)
    modify (λ db. record db { users = update_where (in_credit user_id) charged db.users })
    pure (ltb 0 count)

unfoldable pub refund_credit : ℕ → Action (Unit {0})
refund_credit user_id = do
  unlimited ← gets (has_unlimited_lead_finder_access user_id)
  if unlimited then skip else do update_user user_id refunded; skip

abbrev pub free_tier_max_searches_per_day : ℕ
free_tier_max_searches_per_day = 4

abbrev pub free_tier_max_results_per_search : ℕ
free_tier_max_results_per_search = 25

-- the answer of `getFreeTierStatus`, less its constant
pub record FreeTierStatus : Type 0 where
  pub is_paid_tier : Bool
  pub max_results_per_search : ℕ
  pub searches_used_today : ℕ
  pub searches_remaining_today : Option ℕ

-- `start_of_today` is the midnight before `now`
unfoldable pub get_free_tier_status : ℕ → ℕ → ℕ → ℕ → ℕ → Db → FreeTierStatus
unfolding has_paid_lead_finder_access
get_free_tier_status user_id max_results start_of_today grace now db =
    let used = count_where (λ j. j.user_id == user_id && leb start_of_today j.created_at) db.jobs in
    if has_paid_lead_finder_access user_id grace now db
    then record {
      is_paid_tier = true;
      max_results_per_search = max_results;
      searches_used_today = 0;
      searches_remaining_today = none;
    }
    else record {
      is_paid_tier = false;
      max_results_per_search = free_tier_max_results_per_search;
      searches_used_today = used;
      searches_remaining_today = some (free_tier_max_searches_per_day - used);
    }
