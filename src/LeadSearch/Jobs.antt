-- ===== src/LeadSearch/Jobs.antt =====
-- What a user does with a search that was started: `getMoreLeads`, `getSearchJob`,
-- `cancelSearchJob`, `updateResultReviewStatus`, `getCredits` and `listSearchHistory` of
-- src/leads/leads.service.ts. Rows stand in the order in which they were added, which is how the
-- results of a job are listed. The job that `getMoreLeads` puts on the queue is written down without
-- the filters and the people to leave out.
use conference_contact.Prelude.{
  ℕ, Bool, true, false, not, ◌&&◌, Option, List, ◌==◌, min, map, take, find_first, filter_where,
  update_where, count_where, or_else, if◌then◌else◌,
}
use conference_contact.Schema.{Db, search_job}
use conference_contact.Schema.Leads.{
  LeadSearchJob, JobStatus, running, LeadSearchResult, ReviewStatus,
}
use conference_contact.Action.{
  Action, forbidden, not_found, record_not_found, queue_failure, pure, raise_if, gets, or_raise,
  modify, emit, ◌>>=◌, ◌>>◌,
}
use conference_contact.Admin.Listings.{sort_latest}
use conference_contact.Guards.{find_user}
use conference_contact.LeadSearch.Credits.{
  FreeTierStatus, get_free_tier_status, has_paid_lead_finder_access,
  has_unlimited_lead_finder_access,
}
use conference_contact.LeadSearch.Enrichment.{cancel_job}
use conference_contact.LeadSearch.Start.{SearchEnv}

abbrev is_running : JobStatus → Bool
is_running running = true
is_running _ = false

abbrev pub find_job : ℕ → Db → Option LeadSearchJob
find_job id db = find_first (λ j. j.id == id) db.jobs

-- the job, when it is the user's own
unfoldable pub own_job : ℕ → ℕ → Action LeadSearchJob
own_job user_id job_id = do
  found ← gets (find_job job_id)
  job ← or_raise found not_found
  raise_if (not (job.user_id == user_id)) not_found
  pure job

-- the cap of a run: what was asked for, the configured limit, and the balance of a user who pays
abbrev pub more_cap : ℕ → Bool → ℕ → Option ℕ → ℕ
more_cap max_results has_unlimited credits count =
    let requested = or_else count max_results in
    if has_unlimited then min requested max_results else min (min requested credits) max_results

unfoldable pub get_more_leads : SearchEnv → ℕ → ℕ → Option ℕ → Action (Unit {0})
unfolding own_job
get_more_leads env user_id job_id count = do
  job ← own_job user_id job_id
  raise_if (is_running job.status) forbidden
  raise_if (not job.has_filters) forbidden
  paid ← gets (has_paid_lead_finder_access user_id env.grace_period_days env.now)
  raise_if (not paid) forbidden
  found ← gets (find_user user_id)
  user ← or_raise found record_not_found
  has_unlimited ← gets (has_unlimited_lead_finder_access user_id)
  raise_if (not has_unlimited && user.lead_finder_credits == 0) forbidden
  modify (λ db. record db {
    jobs = update_where (λ j. j.id == job_id) (λ j. record j { status = running }) db.jobs;
  })
  raise_if (not env.queue_up) queue_failure
  emit (
      search_job job_id user_id
        (more_cap env.max_results_per_search has_unlimited user.lead_finder_credits count))

unfoldable pub get_search_job : ℕ → ℕ → Action (LeadSearchJob × List LeadSearchResult)
unfolding own_job
get_search_job user_id job_id = do
  job ← own_job user_id job_id
  results ← gets (λ db. filter_where (λ r. r.job_id == job_id) db.results)
  pure (job, results)

-- a job that has ended stays as it is
unfoldable pub cancel_search_job : ℕ → ℕ → Action (Unit {0})
unfolding own_job
cancel_search_job user_id job_id = do
  job ← own_job user_id job_id
  modify (λ db. record db { jobs = cancel_job job_id db.jobs })

unfoldable pub update_result_review_status : ℕ → ℕ → ℕ → ReviewStatus → Action (Unit {0})
unfolding own_job
update_result_review_status user_id job_id result_id status = do
  job ← own_job user_id job_id
  found ← gets (λ db. find_first (λ r. r.id == result_id) db.results)
  result ← or_raise found not_found
  raise_if (not (result.job_id == job_id)) not_found
  modify (λ db. record db {
    results =
        update_where (λ r. r.id == result_id) (λ r. record r { review_status = status }) db.results;
  })

unfoldable pub get_credits : SearchEnv → ℕ → Action (ℕ × FreeTierStatus)
get_credits env user_id = do
  found ← gets (find_user user_id)
  user ← or_raise found record_not_found
  free_tier ← gets (
      get_free_tier_status user_id env.max_results_per_search env.start_of_today
        env.grace_period_days env.now)
  pure (user.lead_finder_credits, free_tier)

-- the newest fifty searches, each with its number of results
abbrev pub list_search_history : ℕ → Db → List (LeadSearchJob × ℕ)
list_search_history user_id db =
    map (λ j. (j, count_where (λ r. r.job_id == j.id) db.results))
      (take 50 (sort_latest (λ j. j.created_at) (filter_where (λ j. j.user_id == user_id) db.jobs)))
