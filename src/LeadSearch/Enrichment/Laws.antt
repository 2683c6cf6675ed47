-- ===== src/LeadSearch/Enrichment/Laws.antt =====
-- What a search costs its user.
use conference_contact.Prelude.{
  true_ne_false, ℕ, ◌+◌, ◌<◌, Bool, true, false, Option, none, some, List, [], ◌∷◌, ◌==◌, ◌≡◌, refl,
  ap, ltb, find_first, update_where, count_where, All, Bool-cases, Option-cases, inl, inr, arith,
  if◌then◌else◌,
}
use conference_contact.Prelude.Rows.Updates.{find_first-update_where, find_first_matches}
use conference_contact.Schema.{Db}
use conference_contact.Schema.Accounts.{User}
use conference_contact.Schema.Leads.{LeadSearchResult}
use conference_contact.Action.{Result, ok, err, continue, pure, ◌>>=◌}
use conference_contact.Guards.{find_user}
use conference_contact.Users.{update_user}
use conference_contact.LeadSearch.Credits.{
  unlimited, in_credit, charged, refunded, try_reserve_credit, refund_credit,
  has_unlimited_lead_finder_access,
}
use conference_contact.LeadSearch.Enrichment.{
  Enriched, is_cancelled, counted, enrich_all, skip_pending, cancel_job, write_enriched,
  write_failed,
}

-- The user's row, the only one with its id, in a table of users.
abbrev pub OnlyRow : ℕ → User → List User → Type 0
OnlyRow user_id u users =
    (find_first (λ r. r.id == user_id) users ≡ some u)
    × All (λ r. (r.id == user_id) ≡ true → r ≡ u) users

-- Of a search that returns `n` enriched results, the credits before are those after and `n`; a search
-- that fails has cost a credit or more.
abbrev pub Paid : Result (ℕ × Bool) → ℕ → ℕ → Type 0
Paid (ok (n, returned)) before after = after + n ≡ before
Paid (err e) before after = after < before

All-own :
    (user_id : ℕ) (u : User) (p : User → Bool) (f : User → User)
    → ((r : User) → (f r).id ≡ r.id)
    → p u ≡ true
    → (users : List User) → All (λ r. (r.id == user_id) ≡ true → r ≡ u) users
    → All (λ r. (r.id == user_id) ≡ true → r ≡ f u) (update_where p f users)
All-own user_id u p f same holds [] own = tt
All-own user_id u p f same holds (r ∷ rs) (own, rest) =
    (one (p r) refl, All-own user_id u p f same holds rs rest)
  where
    one :
        (b : Bool)
        → p r ≡ b
        → ((if b then f r else r).id == user_id) ≡ true
        → (if b then f r else r) ≡ f u
    one true e h = ap f (own (ground (arith, same r)))
    one false e h = (let here = own h in absurd (true_ne_false (rw here at e) holds))

count_where-none :
    (p : User → Bool) (user_id : ℕ) (u : User)
    → ((r : User) → p r ≡ true → (r.id == user_id) ≡ true)
    → p u ≡ false
    → (users : List User) → All (λ r. (r.id == user_id) ≡ true → r ≡ u) users
    → count_where p users ≡ 0
count_where-none p user_id u own_only fails [] own = refl
count_where-none p user_id u own_only fails (r ∷ rs) (own, rest) = elim (Bool-cases (p r)) [
  | inl holds ↦
      (let same = own (own_only r holds) in absurd (true_ne_false fails (rw same at holds)))
  | inr other ↦ rw other (count_where-none p user_id u own_only fails rs rest)
]

count_where-some :
    (p : User → Bool) (q : User → Bool) (users : List User) {u : User}
    → find_first q users ≡ some u
    → p u ≡ true
    → ltb 0 (count_where p users) ≡ true
count_where-some p q [] found holds = cc
count_where-some p q (r ∷ rs) {u} found holds = elim (Bool-cases (q r)) [
  | inl here ↦ ground arith
  | inr there ↦ ground (arith, count_where-some p q rs {u = u} (ground arith) holds)
]

module _ (user_id : ℕ) (db : Db) {u : User} (own : OnlyRow user_id u db.users)
    (limited : unlimited (some u) ≡ false) where
  -- A reservation takes a credit when there is one.
  pub reserve_some :
      ltb 0 u.lead_finder_credits ≡ true
      → (try_reserve_credit user_id db
          ≡ (ok true, record db { users = update_where (in_credit user_id) charged db.users }))
        × OnlyRow user_id (charged u) (update_where (in_credit user_id) charged db.users)
  unfolding try_reserve_credit has_unlimited_lead_finder_access ◌>>=◌
  reserve_some some_left =
      let same = find_first_matches (λ (r : User). r.id == user_id) db.users own.0 in
      let in_it : in_credit user_id u ≡ true = ground arith in
      let counted =
        count_where-some (in_credit user_id) (λ r. r.id == user_id) db.users own.0 in_it in
      (
        rw (own.0, limited, counted) refl,
        rw
            (
              find_first-update_where (λ r. r.id == user_id) (in_credit user_id) charged (λ r. refl)
                  db.users,
              own.0,
              in_it,
            )
            (refl, All-own user_id u (in_credit user_id) charged (λ r. refl) in_it db.users own.1),
      )

  -- Without one it takes none.
  pub reserve_none :
      ltb 0 u.lead_finder_credits ≡ false
      → (try_reserve_credit user_id db
          ≡ (ok false, record db { users = update_where (in_credit user_id) charged db.users }))
        × (find_first (λ r. r.id == user_id) (update_where (in_credit user_id) charged db.users)
            ≡ some u)
  unfolding try_reserve_credit has_unlimited_lead_finder_access ◌>>=◌
  reserve_none none_left =
      let out : in_credit user_id u ≡ false = ground arith in
      let counted =
        count_where-none (in_credit user_id) user_id u (λ r h. ground arith) out db.users own.1 in
      (
        rw (own.0, limited, counted) refl,
        rw
            (
              find_first-update_where (λ r. r.id == user_id) (in_credit user_id) charged (λ r. refl)
                  db.users,
              own.0,
              out,
            )
            refl,
      )

  -- A refund gives it back.
  pub refund_lem :
      (refund_credit user_id db
        ≡ (ok tt, record db { users = update_where (λ r. r.id == user_id) refunded db.users }))
      × OnlyRow user_id (refunded u) (update_where (λ r. r.id == user_id) refunded db.users)
  unfolding refund_credit has_unlimited_lead_finder_access update_user ◌>>=◌
  refund_lem =
      let same = find_first_matches (λ (r : User). r.id == user_id) db.users own.0 in
      (
        rw (own.0, limited, own.0) refl,
        rw
            (
              find_first-update_where (λ r. r.id == user_id) (λ r. r.id == user_id) refunded
                  (λ r. refl) db.users,
              own.0,
              same,
            )
            (
              refl,
              All-own user_id u (λ r. r.id == user_id) refunded (λ r. refl) same db.users own.1,
            ),
      )

-- How the rest of a search settles what one result cost.
later-Paid :
    (user_id added before between : ℕ) (r : Result (ℕ × Bool)) (db : Db) (v : User)
    → find_user user_id db ≡ some v
    → Paid r between v.lead_finder_credits
    → between + (if added == 0 then 0 else 1) ≡ before
    → let (r', db') = continue r (λ later. pure (counted added later)) db in
      (w : User) × (find_user user_id db' ≡ some w) × Paid r' before w.lead_finder_credits
unfolding pure
later-Paid user_id added before between (ok (n, returned)) db v found paid total =
    (v, found, ground arith)
later-Paid user_id added before between (err e) db v found paid total = (v, found, ground arith)

-- For a user without unlimited access, whose row is the only one with its id: when the loop over the
-- results of a search returns, finished or stopped by a cancellation or an empty balance, the credits
-- have fallen by exactly the number of results that it enriched; when a call of Apollo throws, they
-- have fallen by one at least.
pub enrich_all-Paid :
    (enrich_person : ℕ → Option (Option Enriched)) (cancelled_before : ℕ → Bool)
    (job_id user_id : ℕ) (results : List LeadSearchResult) (db : Db) {u : User}
    → OnlyRow user_id u db.users
    → unlimited (some u) ≡ false
    → let (r, db') = enrich_all enrich_person cancelled_before job_id user_id results db in
      (w : User) × (find_user user_id db' ≡ some w)
      × Paid r u.lead_finder_credits w.lead_finder_credits
unfolding enrich_all skip_pending write_enriched write_failed ◌>>=◌
enrich_all-Paid enrich_person cancelled_before job_id user_id [] db {u} own limited =
    (u, own.0, omega arith)
enrich_all-Paid enrich_person cancelled_before job_id user_id (result ∷ rest) db {u} own limited =
    let db1 = record db {
      jobs = if cancelled_before result.id then cancel_job job_id db.jobs else db.jobs;
    } in
    let users2 = update_where (in_credit user_id) charged db.users in
    let db2 = record db1 { users = users2 } in
    let go = enrich_all-Paid enrich_person cancelled_before job_id user_id rest in
    elim (Bool-cases (is_cancelled (find_first (λ j. j.id == job_id) db1.jobs))) [
      | inl stop ↦ rw stop (u, own.0, omega arith)
      | inr on ↦ elim (Bool-cases (ltb 0 u.lead_finder_credits)) [
        | inr empty ↦
            (let (refused, found) = reserve_none user_id db1 own limited empty in
              rw (on, refused) (u, found, omega arith))
        | inl left ↦
            (let (taken, own2) = reserve_some user_id db1 own limited left in
              rw (on, taken)
                (elim (Option-cases (enrich_person result.apollo_person_id)) [
                  | inl thrown ↦ rw thrown (charged u, own2.0, ground arith)
                  | inr (none, answer) ↦
                      (let (back, own3) = refund_lem user_id db2 own2 limited in
                        let db3 =
                          (write_failed result (record db2 {
                            users = update_where (λ r. r.id == user_id) refunded users2;
                          })).1 in
                        let (v, found, paid) = go db3 _ own3 limited in
                        let m = enrich_all enrich_person cancelled_before job_id user_id rest db3 in
                        rw (answer, back)
                          (later-Paid user_id 0 u.lead_finder_credits _ m.0 m.1 v found paid
                            (ground arith)))
                  | inr (some e, answer) ↦
                      (let db3 = (write_enriched result e db2).1 in
                        let (v, found, paid) = go db3 _ own2 limited in
                        let m = enrich_all enrich_person cancelled_before job_id user_id rest db3 in
                        rw answer (
                          later-Paid user_id 1 u.lead_finder_credits _ m.0 m.1 v found paid
                            (ground arith)))
                ]))
      ]
    ]
