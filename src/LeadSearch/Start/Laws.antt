-- ===== src/LeadSearch/Start/Laws.antt =====
-- How many searches a day the free tier allows.
use conference_contact.Prelude.{
  ℕ, ◌+◌, ◌-◌, ◌≤◌, Bool, false, ◌&&◌, List, [], ◌∷◌, ◌++◌, ◌==◌, ◌≡◌, refl, leb, min, count_where,
  All, Bool-cases, Option-cases, ◌⊎◌, inl, inr, arith, if◌then◌else◌,
}
use conference_contact.Schema.{Db, Effect, search_job}
use conference_contact.Schema.Leads.{LeadSearchJob}
use conference_contact.Action.{
  Result, ok, err, Error, forbidden, record_not_found, queue_failure, ◌>>=◌,
}
use conference_contact.Guards.{find_user}
use conference_contact.LeadSearch.Credits.{
  get_free_tier_status, has_paid_lead_finder_access, has_unlimited_lead_finder_access,
}
use conference_contact.LeadSearch.Start.{SearchEnv, new_job, ai_search}

count_where-append {ℓ} :
    {A : Type ℓ} (p : A → Bool) (xs : List A) (a : A)
    → count_where p (xs ++ a ∷ []) ≡ count_where p xs + (if p a then 1 else 0)
count_where-append p [] a = ground arith
count_where-append p (x ∷ xs) a = ground (arith, count_where-append p xs a)

-- The searches that a user has started since a time.
abbrev pub used_since : ℕ → ℕ → List LeadSearchJob → ℕ
used_since user_id start jobs =
    count_where (λ j. j.user_id == user_id && leb start j.created_at) jobs

abbrev one_if_ok : Result ℕ → ℕ
one_if_ok (ok id) = 1
one_if_ok (err e) = 0

one_if_ok-le : (r : Result ℕ) → one_if_ok r ≤ 1
one_if_ok-le (ok id) = omega arith
one_if_ok-le (err e) = omega arith

-- How many of the searches that a user asks for, one after the other, are started.
pub started : ℕ → List SearchEnv → Db → ℕ
started user_id [] db = 0
started user_id (env ∷ envs) db =
    let (r, db') = ai_search env user_id db in one_if_ok r + started user_id envs db'

unpaid_limited :
    (user_id grace now : ℕ) (db : Db)
    → has_paid_lead_finder_access user_id grace now db ≡ false
    → has_unlimited_lead_finder_access user_id db ≡ false
unfolding has_paid_lead_finder_access
unpaid_limited user_id grace now db unpaid = ground arith

-- What one request of the free tier does: it is refused and changes nothing, or it adds a search
-- while fewer than four are used, which the queue takes or not.
ai_search-cases :
    (env : SearchEnv) (user_id : ℕ) (db : Db)
    → has_paid_lead_finder_access user_id env.grace_period_days env.now db ≡ false
    → ((e : Error) × (ai_search env user_id db ≡ (err e, db)))
      ⊎ ((used_since user_id env.start_of_today db.jobs + 1 ≤ 4)
          × (r : Result ℕ) × (es : List Effect) × (ai_search env user_id db
              ≡ (r, record db { jobs = db.jobs ++ new_job env user_id ∷ []; effects = es })))
unfolding ai_search ◌>>=◌ get_free_tier_status
ai_search-cases env user_id db unpaid =
    let limited = unpaid_limited user_id env.grace_period_days env.now db unpaid in
    elim (Option-cases (find_user user_id db)) [
      | inl e ↦ inl (record_not_found, rw e refl)
      | inr (u, e) ↦ elim (Bool-cases (u.lead_finder_credits == 0)) [
        | inl broke ↦ inl (forbidden, rw (e, limited, broke) refl)
        | inr in_credit ↦
            elim (Bool-cases (4 - used_since user_id env.start_of_today db.jobs == 0)) [
              | inl over ↦ inl (forbidden, rw (e, limited, in_credit, unpaid, over) refl)
              | inr left ↦ elim (Bool-cases env.queue_up) [
                | inl up ↦ inr (
                  ground arith,
                  ok env.fresh,
                  db.effects ++ search_job env.fresh user_id (min u.lead_finder_credits 25) ∷ [],
                  rw (e, limited, in_credit, unpaid, left, up) refl,
                )
                | inr down ↦ inr (
                  ground arith,
                  err queue_failure,
                  db.effects,
                  rw (e, limited, in_credit, unpaid, left, down) refl,
                )
              ]
            ]
      ]
    ]

-- On one day, a user without paid access gets at most as many searches started as are left of four, however
-- many requests there are: those started and those used before are at most four, when those used
-- before are.
pub started_capped :
    (user_id start : ℕ) (envs : List SearchEnv) (db : Db)
    → All
        (λ env.
          (env.start_of_today ≡ start)
          × (start ≤ env.now)
          × (has_paid_lead_finder_access user_id env.grace_period_days env.now db ≡ false))
        envs
    → used_since user_id start db.jobs ≤ 4
    → started user_id envs db + used_since user_id start db.jobs ≤ 4
unfolding started has_paid_lead_finder_access has_unlimited_lead_finder_access
started_capped user_id start [] db all few = omega arith
started_capped user_id start (env ∷ envs) db ((day, later, unpaid), all) few =
    elim (ai_search-cases env user_id db unpaid) [
      | inl (e, refused) ↦
          (let ih = started_capped user_id start envs db all few in rw refused (omega (arith, ih)))
      | inr (left, r, es, begun) ↦
          (let db' = record db { jobs = db.jobs ++ new_job env user_id ∷ []; effects = es } in
            let grown =
              count_where-append (λ j. j.user_id == user_id && leb start j.created_at) db.jobs
                (new_job env user_id) in
            let room : used_since user_id start db.jobs + 1 ≤ 4 = rw day at left in
            let ih =
              started_capped user_id start envs db' all (ground (arith, grown, room, later)) in
            rw begun (ground (arith, grown, ih, later, one_if_ok-le r)))
    ]
