-- ===== src/LeadSearch/DirectMatch/Laws.antt =====
-- What the search for one person costs, and that its job ends.
use conference_contact.Prelude.{
  ℕ, ◌-◌, Bool, true, false, Option, none, some, List, ◌==◌, ◌≡◌, refl, ltb, find_first,
  update_where, Bool-cases, inl, inr, arith,
}
use conference_contact.Prelude.Rows.Updates.{find_first-update_where, find_first_matches}
use conference_contact.Schema.{Db}
use conference_contact.Schema.Accounts.{User}
use conference_contact.Schema.Leads.{JobStatus, LeadSearchJob, completed, failed}
use conference_contact.Action.{ok, ◌>>=◌}
use conference_contact.Guards.{find_user}
use conference_contact.LeadSearch.Credits.{unlimited, in_credit, charged, refunded}
use conference_contact.LeadSearch.Enrichment.{Enriched}
use conference_contact.LeadSearch.Enrichment.Laws.{OnlyRow, reserve_some, reserve_none, refund_lem}
use conference_contact.LeadSearch.DirectMatch.{
  DirectSearch, set_job_status, process_direct_match, process_by_name, refund_unmatched,
}

-- The price of an answer: nothing for a person that was not found.
abbrev pub price : Option (Option Enriched) → ℕ
price none = 1
price (some none) = 0
price (some (some e)) = 1

-- A job that is there, with its status.
abbrev pub HasStatus : ℕ → JobStatus → Db → Type 0
HasStatus job_id status db =
    (j : LeadSearchJob) × (find_first (λ r. r.id == job_id) db.jobs ≡ some j) × (j.status ≡ status)

-- How a job ends, by whether there was a credit and by the answer.
abbrev pub outcome : Bool → Option (Option Enriched) → JobStatus
outcome true none = failed
outcome true (some found) = completed
outcome false answer = completed

-- A job that is given a status has it.
pub set_status-found :
    (job_id : ℕ) (status : JobStatus) (jobs : List LeadSearchJob) {j : LeadSearchJob}
    → find_first (λ r. r.id == job_id) jobs ≡ some j
    → find_first
        (λ r. r.id == job_id)
        (update_where (λ r. r.id == job_id) (λ r. record r { status = status }) jobs)
      ≡ some (record j { status = status })
set_status-found job_id status jobs {j} job =
    let same = find_first_matches (λ (r : LeadSearchJob). r.id == job_id) jobs job in
    rw
      (
        find_first-update_where (λ r. r.id == job_id) (λ r. r.id == job_id)
            (λ r. record r { status = status }) (λ r. refl) jobs,
        job,
        same,
      )
      refl

-- For a user without unlimited access, whose row is the only one with its id, and a job that is
-- there: the search for a person by name returns, also when Apollo throws; the job has then failed when a
-- credit was reserved and Apollo threw, and is completed otherwise, and the credits have fallen by one, or by none when the person was not found, and not below zero.
pub process_by_name-price :
    (q : DirectSearch) (answer : Option (Option Enriched)) (db : Db) {u : User} {j : LeadSearchJob}
    → OnlyRow q.user_id u db.users
    → unlimited (some u) ≡ false
    → find_first (λ r. r.id == q.job_id) db.jobs ≡ some j
    → let (r, db') = process_by_name q answer db in
      (r ≡ ok tt)
      × HasStatus q.job_id (outcome (ltb 0 u.lead_finder_credits) answer) db'
      × ((w : User) × (find_user q.user_id db' ≡ some w)
          × (w.lead_finder_credits ≡ u.lead_finder_credits - price answer))
unfolding process_by_name process_direct_match set_job_status refund_unmatched ◌>>=◌
process_by_name-price q answer db {u} {j} own limited job =
    let ended = set_status-found q.job_id completed db.jobs job in
    elim (Bool-cases (ltb 0 u.lead_finder_credits)) [
      | inr empty ↦
          (let (refused, found) = reserve_none q.user_id db own limited empty in
            rw (refused, empty, job) (refl, (_, ended, refl), (u, found, ground arith)))
      | inl left ↦
          (let (taken, own2) = reserve_some q.user_id db own limited left in
            let db2 = record db { users = update_where (in_credit q.user_id) charged db.users } in
            let (back, own3) = refund_lem q.user_id db2 own2 limited in
            elim answer
              as (λ answer.
                let (r, db') = process_by_name q answer db in
                (r ≡ ok tt)
                × HasStatus q.job_id (outcome (ltb 0 u.lead_finder_credits) answer) db'
                × ((w : User) × (find_user q.user_id db' ≡ some w)
                    × (w.lead_finder_credits ≡ u.lead_finder_credits - price answer))) [
                      | none ↦
                          rw (taken, left, job)
                            (
                              refl,
                              (_, set_status-found q.job_id failed db.jobs job, refl),
                              (charged u, own2.0, refl),
                            )
                      | some none ↦
                          rw (taken, left, back, job)
                            (refl, (_, ended, refl), (refunded (charged u), own3.0, ground arith))
                      | some (some e) ↦
                          rw (taken, left, job) (refl, (_, ended, refl), (charged u, own2.0, refl))
                    ])
    ]
