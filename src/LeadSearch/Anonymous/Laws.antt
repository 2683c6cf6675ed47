-- ===== src/LeadSearch/Anonymous/Laws.antt =====
-- What the searches of visitors can show.
use conference_contact.Prelude.{
  ℕ, ◌+◌, ◌*◌, ◌-◌, ◌≤◌, ◌<◌, true, false, some, List, [], ◌∷◌, ltb, not, ◌==◌, filter_where, ◌≡◌,
  refl, All, Bool-cases, inl, inr, arith, if◌then◌else◌,
}
use conference_contact.Schema.{Db, Counter, anonymous_search}
use conference_contact.Action.{Result, ok, err, forbidden, service_unavailable}
use conference_contact.Revocation.{current_count, current_expiry, key_eq}
use conference_contact.LeadSearch.Anonymous.Shown.{shown_by, run_admitted, run_refused}
use conference_contact.LeadSearch.Anonymous.{
  AnonymousEnv, AnonymousResult, SearchServices, check_anonymous_search_limit, run_anonymous_search,
}

-- A request for a search: when it comes, and what the services answer to it.
pub record Request : Type 0 where
  pub env : AnonymousEnv
  pub services : SearchServices

-- How many people the requests of one address show, one after the other.
pub people_shown : ℕ → List Request → Db → ℕ
people_shown ip [] db = 0
people_shown ip (q ∷ qs) db =
    let (r, db') = run_anonymous_search q.services q.env ip db in
    let later = people_shown ip qs db' in shown_by r + later

-- The database after a search that was counted.
abbrev counted : ℕ → ℕ → ℕ → Db → Db
counted ip c expiry db = record db {
  counters =
      record { key = anonymous_search ip; count = c + 1; expires_at = some expiry }
      ∷ filter_where (λ x. not (key_eq x.key (anonymous_search ip))) db.counters;
}

-- With Redis up, a request is counted, and shows nobody once three have been.
run_counted :
    (q : Request) (ip c expiry : ℕ) (db : Db)
    → q.env.redis_up ≡ true
    → current_count (anonymous_search ip) q.env.now db.counters ≡ c
    → (if c + 1 == 1
        then some (q.env.now + q.env.seconds_until_midnight * 1000)
        else current_expiry (anonymous_search ip) q.env.now db.counters)
      ≡ some expiry
    → (r : Result (List AnonymousResult × ℕ)) × (run_anonymous_search q.services q.env ip db
        ≡ (r, counted ip c expiry db))
      × (shown_by r + 3 * (3 - (c + 1)) ≤ 3 * (3 - c))
run_counted q ip c expiry db up now_c until = elim (Bool-cases (ltb 3 (c + 1))) [
  | inl over ↦
      (let refused : check_anonymous_search_limit q.env ip db
            ≡ (err forbidden, counted ip c expiry db) =
          unfold check_anonymous_search_limit in rw (up, now_c, until, over) refl in
        (
          err forbidden,
          run_refused q.services q.env ip forbidden db (counted ip c expiry db) refused,
          omega arith,
        ))
  | inr room ↦
      (let admitted : check_anonymous_search_limit q.env ip db
            ≡ (ok (3 - (c + 1)), counted ip c expiry db) =
          unfold check_anonymous_search_limit in rw (up, now_c, until, room) refl in
        let (r, h, few) =
          run_admitted q.services q.env ip (3 - (c + 1)) db (counted ip c expiry db) admitted in
        (r, h, ground (arith, few, room)))
]

-- With Redis down, a request changes nothing and shows nobody.
run_down :
    (q : Request) (ip : ℕ) (db : Db)
    → q.env.redis_up ≡ false
    → run_anonymous_search q.services q.env ip db ≡ (err service_unavailable, db)
run_down q ip db down =
    run_refused q.services q.env ip service_unavailable db db
      (unfold check_anonymous_search_limit in rw down refl)

-- Once the key counts `c` searches and lives until midnight, each of those left shows three people at
-- most.
people_shown_counted :
    (ip c midnight expiry : ℕ) (rest : List Counter) (qs : List Request) (db : Db)
    → db.counters ≡ record { key = anonymous_search ip; count = c; expires_at = some expiry } ∷ rest
    → 1 ≤ c
    → midnight ≤ expiry
    → All (λ q. q.env.now < midnight) qs
    → people_shown ip qs db ≤ 3 * (3 - c)
unfolding people_shown
people_shown_counted ip c midnight expiry rest [] db e some_c late all = omega arith
people_shown_counted ip c midnight expiry rest (q ∷ qs) db e some_c late all =
    elim (Bool-cases q.env.redis_up) [
      | inr down ↦
          (let ih = people_shown_counted ip c midnight expiry rest qs db e some_c late all.1 in
            rw (run_down q ip db down) (omega (arith, ih)))
      | inl up ↦
          (let (r, h, few) =
              run_counted q ip c expiry db up (rw e (ground (arith, all.0)))
                (rw e (ground (arith, all.0))) in
            let ih =
              people_shown_counted ip (c + 1) midnight expiry _ qs (counted ip c expiry db) refl
                (omega arith) late all.1 in
            rw h (omega (arith, ih, few)))
    ]

-- The conditions on a request: it comes before midnight, which is no later than the seconds that it
-- computes say, and at its time the counter of the address has run out.
abbrev pub InDay : ℕ → ℕ → List Counter → Request → Type 0
InDay ip midnight counters q =
    (q.env.now < midnight)
    × (midnight ≤ q.env.now + q.env.seconds_until_midnight * 1000)
    × (current_count (anonymous_search ip) q.env.now counters ≡ 0)

before_midnight :
    (ip midnight : ℕ) (counters : List Counter) (qs : List Request)
    → All (InDay ip midnight counters) qs
    → All (λ q. q.env.now < midnight) qs
before_midnight ip midnight counters [] all = tt
before_midnight ip midnight counters (q ∷ qs) all =
    (all.0.0, before_midnight ip midnight counters qs all.1)

-- However many searches visitors of one address make before midnight, whatever the services answer
-- and whenever Redis fails, they are shown at most nine people in all, when at the times of the
-- requests nothing is left of a counter of an earlier day.
pub visitor_capped :
    (ip midnight : ℕ) (qs : List Request) (db : Db)
    → All (InDay ip midnight db.counters) qs
    → people_shown ip qs db ≤ 9
unfolding people_shown
visitor_capped ip midnight [] db all = omega arith
visitor_capped ip midnight (q ∷ qs) db all = elim (Bool-cases q.env.redis_up) [
  | inr down ↦
      (let ih = visitor_capped ip midnight qs db all.1 in
        rw (run_down q ip db down) (omega (arith, ih)))
  | inl up ↦
      (let expiry = q.env.now + q.env.seconds_until_midnight * 1000 in
        let (r, h, few) = run_counted q ip 0 expiry db up all.0.2 refl in
        let ih =
          people_shown_counted ip 1 midnight expiry _ qs (counted ip 0 expiry db) refl (omega arith)
            all.0.1 (before_midnight ip midnight db.counters qs all.1) in
        rw h (omega (arith, ih, few)))
]
