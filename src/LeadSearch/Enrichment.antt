-- ===== src/LeadSearch/Enrichment.antt =====
-- The loop of `process` of src/leads/apollo-search.processor.ts, which enriches the results of a
-- search one by one. The answers of `enrichPerson` are a parameter: `none` is an exception, and
-- `some none` a person that was not found. `cancelled_before` says before which results, by their id,
-- a request of `cancelSearchJob` arrives.
pub mod Laws
use conference_contact.Prelude.{
  ℕ, zero, suc, String, Bool, true, false, ◌&&◌, Option, none, some, List, [], ◌∷◌, ◌==◌,
  find_first, update_where, or_else, if◌then◌else◌,
}
use conference_contact.Schema.{Db}
use conference_contact.Schema.Leads.{
  JobStatus, running, cancelled, ResultStatus, pending, enriched, failed, skipped, LeadSearchJob,
  LeadSearchResult,
}
use conference_contact.Action.{
  Action, service_unavailable, pure, gets, or_raise, skip, modify, ◌>>=◌, ◌>>◌,
}
use conference_contact.LeadSearch.Credits.{try_reserve_credit, refund_credit}

-- `EnrichedPerson`
pub record Enriched : Type 0 where
  pub name : Option String
  pub title : Option String
  pub company : Option String
  pub linkedin : Option String
  pub email : Option String

abbrev pub is_running : JobStatus → Bool
is_running running = true
is_running _ = false

abbrev pub is_cancelled : Option LeadSearchJob → Bool
is_cancelled none = false
is_cancelled (some j) = elim j.status [ cancelled ↦ true | _ ↦ false ]

abbrev pub is_pending : ResultStatus → Bool
is_pending pending = true
is_pending _ = false

-- `a ?? b` of two values that may be null
abbrev or_option : Option String → Option String → Option String
or_option none b = b
or_option (some a) b = some a

abbrev set_results :
    (LeadSearchResult → Bool) → (LeadSearchResult → LeadSearchResult) → Action (Unit {0})
set_results p f = modify λ db. record db { results = update_where p f db.results }

unfoldable pub skip_pending : ℕ → Action (Unit {0})
skip_pending job_id =
    set_results (λ r. r.job_id == job_id && is_pending r.status)
      (λ r. record r { status = skipped })

-- the write of `cancelSearchJob`, which leaves a job that has ended
unfoldable pub cancel_job : ℕ → List LeadSearchJob → List LeadSearchJob
cancel_job job_id jobs =
    update_where (λ j. j.id == job_id && is_running j.status) (λ j. record j { status = cancelled })
      jobs

abbrev pub enriched_row : LeadSearchResult → Enriched → LeadSearchResult → LeadSearchResult
enriched_row result e r = record r {
  name = or_else e.name result.name;
  title = or_option e.title result.title;
  company = or_option e.company result.company;
  linkedin = e.linkedin;
  email = e.email;
  status = enriched;
}

unfoldable pub write_enriched : LeadSearchResult → Enriched → Action (Unit {0})
write_enriched result e = set_results (λ r. r.id == result.id) (enriched_row result e)

unfoldable pub write_failed : LeadSearchResult → Action (Unit {0})
write_failed result = set_results (λ r. r.id == result.id) (λ r. record r { status = failed })

-- `enrichedCount += 1` of the rounds that enrich
abbrev pub counted : ℕ → ℕ × Bool → ℕ × Bool
counted added (n, returned) = (if added == 0 then n else suc n, returned)

module _ (enrich_person : ℕ → Option (Option Enriched)) (cancelled_before : ℕ → Bool)
    (job_id user_id : ℕ) where
  -- What one answer does; the result is what it adds to `enrichedCount`.
  unfoldable pub settle : LeadSearchResult → Option Enriched → Action ℕ
  settle result none = do refund_credit user_id; write_failed result; pure 0
  settle result (some e) = do write_enriched result e; pure 1

  abbrev pub cancellation : LeadSearchResult → Action (Unit {0})
  cancellation result = modify λ db. record db {
    jobs = if cancelled_before result.id then cancel_job job_id db.jobs else db.jobs;
  }

  -- `enrichedCount` at the end of the loop, and whether a cancellation makes the job return there. The
  -- loop is left early, too, when no credit is left.
  unfoldable pub enrich_all : List LeadSearchResult → Action (ℕ × Bool)
  unfolding settle
  enrich_all [] = pure (0, false)
  enrich_all (result ∷ rest) = do
    cancellation result
    stop ← gets (λ db. is_cancelled (find_first (λ j. j.id == job_id) db.jobs))
    if stop then (do skip_pending job_id; pure (0, true)) else do
      reserved ← try_reserve_credit user_id
      if reserved
          then (do
            answer ← or_raise (enrich_person result.apollo_person_id) service_unavailable
            added ← settle result answer
            later ← enrich_all rest
            pure (counted added later))
          else do skip_pending job_id; pure (0, false)
