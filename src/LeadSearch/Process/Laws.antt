-- ===== src/LeadSearch/Process/Laws.antt =====
-- Every search job ends, and leaves no result waiting unless it fails.
use conference_contact.Prelude.{
  ℕ, ◌⊎◌, Bool, true, false, Option, some, List, [], ◌∷◌, ◌++◌, ◌==◌, ◌≡◌, refl, find_first,
  update_where, Option-cases, inl, inr, arith,
}
use conference_contact.Schema.{Db}
use conference_contact.Schema.Leads.{JobStatus, completed, failed, LeadSearchJob}
use conference_contact.Action.{Result, Error, ok, err, service_unavailable, continue, ◌>>=◌}
use conference_contact.LeadSearch.Anonymous.{Candidate}
use conference_contact.LeadSearch.Enrichment.{Enriched, is_running, enrich_all}
use conference_contact.LeadSearch.DirectMatch.{set_job_status, or_failed}
use conference_contact.LeadSearch.DirectMatch.Laws.{set_status-found}
use conference_contact.LeadSearch.Process.Loop.{
  NoneWaits, HasJob, Settled, own_ids, WaitsIn-append, enrich_all-Settled,
}
use conference_contact.LeadSearch.Process.{
  SearchRun, pending_results, candidates_of, per_page, finish, enrich_found, process_candidates,
  process_search,
}

-- A status other than running that is written ends the job.
set_job_status-found :
    (job_id : ℕ) (status : JobStatus) (db : Db)
    → HasJob job_id db
    → (js : List LeadSearchJob) × (j : LeadSearchJob) × (set_job_status job_id status db
        ≡ (ok tt, record db { jobs = js }))
      × (find_first (λ r. r.id == job_id) js ≡ some j)
      × (j.status ≡ status)
unfolding set_job_status ◌>>=◌
set_job_status-found job_id status db (j, found) = (
  update_where (λ r. r.id == job_id) (λ r. record r { status = status }) db.jobs,
  record j { status = status },
  rw found refl,
  set_status-found job_id status db.jobs found,
  refl,
)

-- The job has ended, and when it has not failed, none of its results waits.
abbrev pub HasSettled : ℕ → Db → Type 0
HasSettled job_id db =
    (j : LeadSearchJob) × (find_first (λ r. r.id == job_id) db.jobs ≡ some j)
    × (is_running j.status ≡ false)
    × ((j.status ≡ failed) ⊎ NoneWaits job_id db.results)

fails :
    (job_id : ℕ) (e : Error) (db : Db)
    → HasJob job_id db
    → let (r, db') = or_failed job_id (err e) db in (r ≡ ok tt) × HasSettled job_id db'
fails job_id e db has_job =
    let (js, j, set, found, is_failed) = set_job_status-found job_id failed db has_job in
    rw set (refl, (j, found, rw is_failed refl, inl is_failed))

module _ (search_people : ℕ → Option (List Candidate))
    (enrich_person : ℕ → Option (Option Enriched)) (cancelled_before : ℕ → Bool)
    (q : SearchRun) where
  -- However the loop ends, `process` settles the job.
  ended :
      (r : Result (ℕ × Bool)) (db : Db)
      → Settled q.job_id r db
      → let (r', db') = continue r (finish search_people enrich_person cancelled_before q) db in
        let (r'', db'') = or_failed q.job_id r' db' in (r'' ≡ ok tt) × HasSettled q.job_id db''
  unfolding finish ◌>>=◌
  ended (err e) db has_job = fails q.job_id e db has_job
  ended (ok (n, true)) db ((j, found), none_waits, stopped) =
      let stopped' = rw found at stopped in (refl, (j, found, ground arith, inr none_waits))
  ended (ok (n, false)) db (has_job, none_waits) =
      let (js, j, set, found, is_completed) = set_job_status-found q.job_id completed db has_job in
      rw set (refl, (j, found, rw is_completed refl, inr none_waits))

  settles :
      (cs : List Candidate) (db : Db)
      → HasJob q.job_id db
      → NoneWaits q.job_id db.results
      → let (r, db') = enrich_found search_people enrich_person cancelled_before q cs db in
        let (r', db'') = or_failed q.job_id r db' in (r' ≡ ok tt) × HasSettled q.job_id db''
  unfolding enrich_found ◌>>=◌
  settles [] db has_job none_waits =
      let (js, j, set, found, is_completed) = set_job_status-found q.job_id completed db has_job in
      rw set (refl, (j, found, rw is_completed refl, inr none_waits))
  settles (c ∷ cs) db has_job none_waits =
      let rows = pending_results q q.fresh (c ∷ cs) in
      let db1 = record db { results = db.results ++ rows } in
      let waiting =
        WaitsIn-append q.job_id rows db.results rows none_waits
          (own_ids q.job_id rows rows (λ r h. h)) in
      let m = enrich_all enrich_person cancelled_before q.job_id q.user_id rows db1 in
      ended m.0 m.1 (
        enrich_all-Settled enrich_person cancelled_before q.job_id q.user_id rows db1 has_job
          waiting)

-- When the job is there and none of its results waits, a run of the job returns, whatever Apollo
-- answers, also when it throws, and whenever the user cancels. The job has then ended, and no result
-- of it waits to be enriched, unless the job has failed.
pub process_search-settled :
    (search_people : ℕ → Option (List Candidate)) (enrich_person : ℕ → Option (Option Enriched))
    (cancelled_before : ℕ → Bool) (q : SearchRun) (db : Db) {j : LeadSearchJob}
    → find_first (λ r. r.id == q.job_id) db.jobs ≡ some j
    → NoneWaits q.job_id db.results
    → let (r, db') = process_search search_people enrich_person cancelled_before q db in
      (r ≡ ok tt) × HasSettled q.job_id db'
unfolding process_search process_candidates ◌>>=◌
process_search-settled search_people enrich_person cancelled_before q db {j} found none_waits =
    elim (Option-cases (search_people (per_page q))) [
      | inl thrown ↦ rw thrown (fails q.job_id service_unavailable db (j, found))
      | inr (people, answer) ↦ rw answer (
          settles search_people enrich_person cancelled_before q (candidates_of q people) db
            (j, found) none_waits)
    ]
