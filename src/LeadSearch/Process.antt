-- ===== src/LeadSearch/Process.antt =====
-- `process` of src/leads/apollo-search.processor.ts for the searches that do not name a person: the
-- people that Apollo finds, a pending row for each, the loop of Enrichment, and the end of the job.
-- The answers of `searchPeople` and `enrichPerson` are parameters, where `none` is an exception.
mod Loop
pub mod Laws
use conference_contact.Prelude.{
  ℕ, ◌+◌, Bool, true, false, not, Option, none, some, List, [], ◌∷◌, ◌++◌, ◌==◌, any, length, min,
  filter_where, take, if◌then◌else◌,
}
use conference_contact.Schema.{Db, audit}
use conference_contact.Schema.Leads.{completed, pending, LeadSearchResult, new}
use conference_contact.Action.{
  Action, service_unavailable, skip, or_raise, modify, emit, ◌>>=◌, ◌>>◌,
}
use conference_contact.LeadSearch.Anonymous.{Candidate}
use conference_contact.LeadSearch.DirectMatch.{set_job_status, or_failed}
use conference_contact.LeadSearch.Enrichment.{Enriched, enrich_all}

-- `ApolloSearchJobData`, and the id of the first new row
pub record SearchRun : Type 0 where
  pub job_id : ℕ
  pub user_id : ℕ
  pub cap : ℕ
  pub exclude_apollo_person_ids : List ℕ
  pub fresh : ℕ

abbrev mem : List ℕ → ℕ → Bool
mem ids id = any (λ x. x == id) ids

-- the values of a `Set`
abbrev distinct : List ℕ → List ℕ
distinct [] = []
distinct (x ∷ xs) = let rest = distinct xs in if mem xs x then rest else x ∷ rest

abbrev pub per_page : SearchRun → ℕ
per_page q = min (q.cap + length (distinct q.exclude_apollo_person_ids)) 100

abbrev pub candidates_of : SearchRun → List Candidate → List Candidate
candidates_of q found =
    take q.cap (filter_where (λ c. not (mem q.exclude_apollo_person_ids c.apollo_person_id)) found)

abbrev pub pending_results : SearchRun → ℕ → List Candidate → List LeadSearchResult
pending_results q id [] = []
pending_results q id (c ∷ cs) =
    record {
      id = id;
      job_id = q.job_id;
      apollo_person_id = c.apollo_person_id;
      name = c.name;
      title = c.title;
      company = c.company;
      linkedin = none;
      email = none;
      status = pending;
      review_status = new;
    }
    ∷ pending_results q (id + 1) cs

module _ (search_people : ℕ → Option (List Candidate))
    (enrich_person : ℕ → Option (Option Enriched)) (cancelled_before : ℕ → Bool)
    (q : SearchRun) where
  -- a job that was cancelled returns from the loop
  unfoldable pub finish : ℕ × Bool → Action (Unit {0})
  finish (count, true) = skip
  finish (count, false) = do
    set_job_status q.job_id completed
    emit (audit (some q.user_id) "leads.ai_search" none)

  unfoldable pub enrich_found : List Candidate → Action (Unit {0})
  unfolding finish
  enrich_found [] = set_job_status q.job_id completed
  enrich_found (c ∷ cs) = do
    let rows = pending_results q q.fresh (c ∷ cs)
    modify (λ db. record db { results = db.results ++ rows })
    ended ← enrich_all enrich_person cancelled_before q.job_id q.user_id rows
    finish ended

  unfoldable pub process_candidates : Action (Unit {0})
  unfolding enrich_found
  process_candidates = do
    found ← or_raise (search_people (per_page q)) service_unavailable
    enrich_found (candidates_of q found)

  unfoldable pub process_search : Action (Unit {0})
  unfolding process_candidates
  process_search db = let (r, db') = process_candidates db in or_failed q.job_id r db'
