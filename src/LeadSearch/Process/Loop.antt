-- ===== src/LeadSearch/Process/Loop.antt =====
-- How the loop over the results of a search leaves the job and its results.
use conference_contact.Prelude.{
  ℕ, ◌⊎◌, Bool, true, false, ◌&&◌, Option, none, some, List, [], ◌∷◌, ◌++◌, ◌==◌, ◌≡◌, refl, any,
  find_first, update_where, count_where, ltb, All, Bool-cases, Option-cases, inl, inr, arith,
  if◌then◌else◌,
}
use conference_contact.Prelude.Rows.Updates.{find_first-update_where, map_option, updated}
use conference_contact.Schema.{Db}
use conference_contact.Schema.Accounts.{User}
use conference_contact.Schema.Leads.{
  cancelled, skipped, LeadSearchJob, LeadSearchResult, ResultStatus,
}
use conference_contact.Action.{
  Result, Result-cases, ok, err, record_not_found, continue, pure, ◌>>=◌,
}
use conference_contact.Guards.{find_user}
use conference_contact.Users.{update_user}
use conference_contact.LeadSearch.Credits.{
  unlimited, in_credit, charged, refunded, try_reserve_credit, refund_credit,
  has_unlimited_lead_finder_access,
}
use conference_contact.LeadSearch.Enrichment.{
  Enriched, is_running, is_cancelled, is_pending, counted, enrich_all, skip_pending, cancel_job,
  write_enriched, write_failed, enriched_row,
}

abbrev pub waits : ℕ → LeadSearchResult → Bool
waits job_id r = r.job_id == job_id && is_pending r.status

-- No result of the job waits to be enriched.
abbrev pub NoneWaits : ℕ → List LeadSearchResult → Type 0
NoneWaits job_id = All (λ r. waits job_id r ≡ false)

-- Only the results that the loop has still to visit wait.
abbrev pub WaitsIn : ℕ → List LeadSearchResult → List LeadSearchResult → Type 0
WaitsIn job_id rest = All (λ r. (waits job_id r ≡ false) ⊎ (any (λ s. s.id == r.id) rest ≡ true))

abbrev pub HasJob : ℕ → Db → Type 0
HasJob job_id db = (j : LeadSearchJob) × (find_first (λ r. r.id == job_id) db.jobs ≡ some j)

module _ (job_id : ℕ) where
  WaitsIn-nil : (rows : List LeadSearchResult) → WaitsIn job_id [] rows → NoneWaits job_id rows
  WaitsIn-nil [] h = tt
  WaitsIn-nil (r ∷ rows) (inl h, hs) = (h, WaitsIn-nil rows hs)
  WaitsIn-nil (r ∷ rows) (inr h, hs) = absurd (cc)

  WaitsIn-write :
      (result : LeadSearchResult) (rest : List LeadSearchResult)
      (f : LeadSearchResult → LeadSearchResult)
      → ((r : LeadSearchResult) → waits job_id (f r) ≡ false)
      → (rows : List LeadSearchResult) → WaitsIn job_id (result ∷ rest) rows
      → WaitsIn job_id rest (update_where (λ r. r.id == result.id) f rows)
  WaitsIn-write result rest f done [] h = tt
  WaitsIn-write result rest f done (r ∷ rows) (h, hs) =
      (one h, WaitsIn-write result rest f done rows hs)
    where
      one :
          (waits job_id r ≡ false) ⊎ (any (λ s. s.id == r.id) (result ∷ rest) ≡ true)
          → (waits job_id (if r.id == result.id then f r else r) ≡ false)
            ⊎ (any (λ s. s.id == (if r.id == result.id then f r else r).id) rest ≡ true)
      one h = elim (Bool-cases (r.id == result.id)) [
        | inl same ↦ rw same (inl (done r))
        | inr other ↦
            rw other
              (elim h [ inl settled ↦ inl settled | inr left ↦ inr (ground (arith, other, left)) ])
      ]

  NoneWaits-skipped :
      (rows : List LeadSearchResult)
      → NoneWaits job_id (update_where (waits job_id) (λ r. record r { status = skipped }) rows)
  NoneWaits-skipped [] = tt
  NoneWaits-skipped (r ∷ rows) = elim (Bool-cases (waits job_id r)) [
    | inl waiting ↦ rw waiting (ground arith, NoneWaits-skipped rows)
    | inr settled ↦ rw settled (settled, NoneWaits-skipped rows)
  ]

  skip_pending-NoneWaits :
      (db : Db)
      → let (r, db') = skip_pending job_id db in
        (r ≡ ok tt) × NoneWaits job_id db'.results × (db'.jobs ≡ db.jobs)
  unfolding skip_pending ◌>>=◌
  skip_pending-NoneWaits db = (refl, NoneWaits-skipped db.results, refl)

  pub own_ids :
      (xs ys : List LeadSearchResult)
      → ((r : LeadSearchResult)
          → any (λ s. s.id == r.id) xs ≡ true
          → any (λ s. s.id == r.id) ys ≡ true)
      → WaitsIn job_id ys xs
  own_ids [] ys part = tt
  own_ids (x ∷ xs) ys part =
      (inr (part x (ground arith)), own_ids xs ys (λ r h. part r (ground (arith, h))))

  pub WaitsIn-append :
      (rest old rows : List LeadSearchResult)
      → NoneWaits job_id old
      → WaitsIn job_id rest rows
      → WaitsIn job_id rest (old ++ rows)
  WaitsIn-append rest [] rows h k = k
  WaitsIn-append rest (r ∷ old) rows (h, hs) k = (inl h, WaitsIn-append rest old rows hs k)

-- What a reservation and a refund leave alone.
reserve_frame :
    (user_id : ℕ) (db : Db)
    → (b : Bool) × (us : List User) × (try_reserve_credit user_id db
        ≡ (ok b, record db { users = us }))
unfolding try_reserve_credit has_unlimited_lead_finder_access ◌>>=◌
reserve_frame user_id db = elim (Bool-cases (unlimited (find_user user_id db))) [
  | inl free ↦ (true, db.users, rw free refl)
  | inr limited ↦ (
    ltb 0 (count_where (in_credit user_id) db.users),
    update_where (in_credit user_id) charged db.users,
    rw limited refl,
  )
]

refund_frame :
    (user_id : ℕ) (db : Db)
    → (r : Result (Unit {0})) × (us : List User) × (refund_credit user_id db
        ≡ (r, record db { users = us }))
unfolding refund_credit has_unlimited_lead_finder_access update_user ◌>>=◌
refund_frame user_id db = elim (Bool-cases (unlimited (find_user user_id db))) [
  | inl free ↦ (ok tt, db.users, rw free refl)
  | inr limited ↦ elim (Option-cases (find_user user_id db)) [
    | inl missing ↦ (err record_not_found, db.users, rw (limited, missing) refl)
    | inr (u, found) ↦
        (ok tt, update_where (λ r. r.id == user_id) refunded db.users, rw (limited, found) refl)
  ]
]

-- How the loop leaves the database: a job that is still there, and no result that waits, unless the
-- loop throws.
abbrev pub Settled : ℕ → Result (ℕ × Bool) → Db → Type 0
Settled job_id (ok (n, false)) db = HasJob job_id db × NoneWaits job_id db.results
Settled job_id (ok (n, true)) db =
    HasJob job_id db
    × NoneWaits job_id db.results
    × (is_cancelled (find_first (λ j. j.id == job_id) db.jobs) ≡ true)
Settled job_id (err e) db = HasJob job_id db

Settled-counted :
    (job_id added : ℕ) (r : Result (ℕ × Bool)) (db : Db)
    → Settled job_id r db
    → let (r', db') = continue r (λ later. pure (counted added later)) db in Settled job_id r' db'
unfolding pure
Settled-counted job_id added (ok (n, false)) db h = h
Settled-counted job_id added (ok (n, true)) db h = h
Settled-counted job_id added (err e) db h = h

cancel_job-HasJob :
    (job_id : ℕ) (c : Bool) (db : Db)
    → HasJob job_id db
    → HasJob job_id (record db { jobs = if c then cancel_job job_id db.jobs else db.jobs })
unfolding cancel_job
cancel_job-HasJob job_id false db h = h
cancel_job-HasJob job_id true db (j, found) =
    elim (Bool-cases (j.id == job_id && is_running j.status)) [
      | inl stops ↦ (record j { status = cancelled }, rw (moved, found, stops) refl)
      | inr other ↦ (j, rw (moved, found, other) refl)
    ]
  where
    moved :
        find_first
          (λ r. r.id == job_id)
          (update_where
            (λ r. r.id == job_id && is_running r.status)
            (λ r. record r { status = cancelled })
            db.jobs)
        ≡ map_option
            (updated
              (λ r. r.id == job_id && is_running r.status)
              (λ r. record r { status = cancelled }))
            (find_first (λ r. r.id == job_id) db.jobs)
    moved = find_first-update_where (λ r. r.id == job_id) _ _ (λ r. refl) db.jobs

module _ (enrich_person : ℕ → Option (Option Enriched)) (cancelled_before : ℕ → Bool)
    (job_id user_id : ℕ) where
  pub enrich_all-Settled :
      (rest : List LeadSearchResult) (db : Db)
      → HasJob job_id db
      → WaitsIn job_id rest db.results
      → let (r, db') = enrich_all enrich_person cancelled_before job_id user_id rest db in
        Settled job_id r db'
  unfolding enrich_all skip_pending write_enriched write_failed ◌>>=◌
  enrich_all-Settled [] db has_job waiting = (has_job, WaitsIn-nil job_id db.results waiting)
  enrich_all-Settled (result ∷ rest) db has_job waiting =
      let db1 = record db {
        jobs = if cancelled_before result.id then cancel_job job_id db.jobs else db.jobs;
      } in
      let has_job1 = cancel_job-HasJob job_id (cancelled_before result.id) db has_job in
      let (b, us, reserved) = reserve_frame user_id db1 in
      let db2 = record db1 { users = us } in
      let go = enrich_all-Settled rest in
      let m = λ (db' : Db). enrich_all enrich_person cancelled_before job_id user_id rest db' in
      elim (Bool-cases (is_cancelled (find_first (λ j. j.id == job_id) db1.jobs))) [
        | inl stop ↦ rw stop (has_job1, NoneWaits-skipped job_id db.results, stop)
        | inr on ↦ elim (Bool-cases b) [
          | inr empty ↦ rw (on, reserved, empty) (has_job1, NoneWaits-skipped job_id db.results)
          | inl left ↦ elim (Option-cases (enrich_person result.apollo_person_id)) [
            | inl thrown ↦ rw (on, reserved, left, thrown) has_job1
            | inr (none, answer) ↦
                (let (refund, us', back) = refund_frame user_id db2 in
                  elim (Result-cases refund) [
                    | inr (e, gone) ↦ rw (on, reserved, left, answer, back, gone) has_job1
                    | inl (done, returned) ↦
                        (let db3 = (write_failed result (record db2 { users = us' })).1 in
                          let waiting' =
                            WaitsIn-write job_id result rest
                              (λ r. record r { status = ResultStatus.failed }) (λ r. ground arith)
                              db.results waiting in
                          rw (on, reserved, left, answer, back, returned)
                            (Settled-counted job_id 0 (m db3).0 (m db3).1
                              (go db3 has_job1 waiting')))
                  ])
            | inr (some e, answer) ↦
                (let db3 = (write_enriched result e db2).1 in
                  let waiting' =
                    WaitsIn-write job_id result rest (enriched_row result e) (λ r. ground arith)
                      db.results waiting in
                  rw (on, reserved, left, answer)
                    (Settled-counted job_id 1 (m db3).0 (m db3).1 (go db3 has_job1 waiting')))
          ]
        ]
      ]
