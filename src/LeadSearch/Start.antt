-- ===== src/LeadSearch/Start.antt =====
-- `aiSearch` of src/leads/leads.service.ts: the start of a search. Query has its filters.
pub mod Laws
use conference_contact.Prelude.{
  ℕ, Bool, true, false, not, ◌&&◌, Option, none, some, List, [], ◌∷◌, ◌++◌, ◌==◌, min, is_value,
  if◌then◌else◌,
}
use conference_contact.Schema.{Db, search_job}
use conference_contact.Schema.Leads.{LeadSearchJob, running}
use conference_contact.Action.{
  Action, forbidden, record_not_found, queue_failure, pure, raise_if, gets, or_raise, modify, emit,
  ◌>>=◌, ◌>>◌,
}
use conference_contact.Guards.{find_user}
use conference_contact.LeadSearch.Credits.{get_free_tier_status, has_unlimited_lead_finder_access}

-- The time, with the midnight before it, the id of the new search, whether the queue of searches takes
-- a job, and the configuration.
pub record SearchEnv : Type 0 where
  pub now : ℕ
  pub start_of_today : ℕ
  pub fresh : ℕ
  pub queue_up : Bool
  pub max_results_per_search : ℕ
  pub grace_period_days : ℕ

abbrev pub new_job : SearchEnv → ℕ → LeadSearchJob
new_job env user_id = record {
  id = env.fresh;
  user_id = user_id;
  status = running;
  has_filters = true;
  created_at = env.now;
}

unfoldable pub ai_search : SearchEnv → ℕ → Action ℕ
ai_search env user_id = do
  user ← or_raise (← gets (find_user user_id)) record_not_found
  has_unlimited ← gets (has_unlimited_lead_finder_access user_id)
  raise_if (not has_unlimited && user.lead_finder_credits == 0) forbidden
  free_tier ← gets (
      get_free_tier_status user_id env.max_results_per_search env.start_of_today
        env.grace_period_days env.now)
  raise_if (not free_tier.is_paid_tier && is_value free_tier.searches_remaining_today 0) forbidden
  modify (λ db. record db { jobs = db.jobs ++ new_job env user_id ∷ [] })
  raise_if (not env.queue_up) queue_failure
  emit (
      search_job env.fresh user_id (
        if has_unlimited
        then free_tier.max_results_per_search
        else min user.lead_finder_credits free_tier.max_results_per_search))
  pure env.fresh
