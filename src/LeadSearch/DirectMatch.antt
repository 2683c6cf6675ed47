-- ===== src/LeadSearch/DirectMatch.antt =====
-- The search for one person by name, `processDirectMatch` and the part of `process` around it, of
-- src/leads/apollo-search.processor.ts. The answer of `matchByName` is a parameter: `none` is an
-- exception, and `some none` a person that was not found.
pub mod Laws
use conference_contact.Prelude.{
  ℕ, String, Bool, true, false, not, Option, none, some, List, [], ◌∷◌, ◌++◌, ◌==◌, find_first,
  is_some, update_where, or_else, if◌then◌else◌,
}
use conference_contact.Schema.{Db, audit}
use conference_contact.Schema.Leads.{
  JobStatus, completed, failed, enriched, LeadSearchJob, LeadSearchResult, new,
}
use conference_contact.Action.{
  Action, Result, ok, err, record_not_found, service_unavailable, pure, gets, or_raise, raise_if,
  modify, emit, skip, ◌>>=◌, ◌>>◌,
}
use conference_contact.LeadSearch.Credits.{try_reserve_credit, refund_credit}
use conference_contact.LeadSearch.Enrichment.{Enriched}

-- What the search is for, the id of the new row, and the number that stands for the text
-- `name:${personName}`.
pub record DirectSearch : Type 0 where
  pub job_id : ℕ
  pub user_id : ℕ
  pub person_name : String
  pub person_organization : Option String
  pub fresh : ℕ
  pub person_key : ℕ

abbrev pub direct_result : DirectSearch → Option Enriched → LeadSearchResult
direct_result q none = record {
  id = q.fresh;
  job_id = q.job_id;
  apollo_person_id = q.person_key;
  name = q.person_name;
  title = none;
  company = q.person_organization;
  linkedin = none;
  email = none;
  status = failed;
  review_status = new;
}
direct_result q (some e) = record {
  id = q.fresh;
  job_id = q.job_id;
  apollo_person_id = q.person_key;
  name = or_else e.name q.person_name;
  title = e.title;
  company = if is_some e.company then e.company else q.person_organization;
  linkedin = e.linkedin;
  email = e.email;
  status = enriched;
  review_status = new;
}

unfoldable pub set_job_status : ℕ → JobStatus → Action (Unit {0})
set_job_status job_id status = do
  found ← gets (λ db. find_first (λ j. j.id == job_id) db.jobs)
  raise_if (not (is_some found)) record_not_found
  modify (λ db. record db {
    jobs = update_where (λ j. j.id == job_id) (λ j. record j { status = status }) db.jobs;
  })

-- `if (!matched) await this.leads.refundCredit(userId)`
unfoldable pub refund_unmatched : ℕ → Option Enriched → Action (Unit {0})
refund_unmatched user_id none = refund_credit user_id
refund_unmatched user_id (some e) = skip

unfoldable pub process_direct_match : DirectSearch → Option (Option Enriched) → Action (Unit {0})
unfolding refund_unmatched set_job_status
process_direct_match q answer = do
  reserved ← try_reserve_credit q.user_id
  if reserved
      then (do
        matched ← or_raise answer service_unavailable
        refund_unmatched q.user_id matched
        modify (λ db. record db { results = db.results ++ direct_result q matched ∷ [] })
        set_job_status q.job_id completed
        emit (audit (some q.user_id) "leads.ai_search" none))
      else set_job_status q.job_id completed

-- the `catch` of `process`
abbrev pub or_failed : ℕ → Result (Unit {0}) → Action (Unit {0})
or_failed job_id (ok done) = pure done
or_failed job_id (err e) = set_job_status job_id failed

-- `process` when the filters name a person
unfoldable pub process_by_name : DirectSearch → Option (Option Enriched) → Action (Unit {0})
unfolding process_direct_match
process_by_name q answer db =
    let (r, db') = process_direct_match q answer db in or_failed q.job_id r db'
