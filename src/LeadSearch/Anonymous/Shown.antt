-- ===== src/LeadSearch/Anonymous/Shown.antt =====
-- What one search of a visitor can show.
use conference_contact.Prelude.{
  ℕ, suc, ◌≤◌, String, Option, none, some, List, [], ◌∷◌, length, take, ◌≡◌, refl, length-take-le,
  Option-cases, inl, inr, arith,
}
use conference_contact.Schema.{Db}
use conference_contact.Action.{
  Result-cases, Result, Error, ok, err, continue, pure, service_unavailable, ◌>>=◌,
}
use conference_contact.LeadSearch.Enrichment.{Enriched}
use conference_contact.LeadSearch.Anonymous.{
  AnonymousEnv, Candidate, AnonymousResult, SearchServices, add_shown, shown_person,
  enrich_candidates, search_for, check_anonymous_search_limit, run_anonymous_search,
}

abbrev people : Result (List AnonymousResult) → ℕ
people (ok xs) = length xs
people (err e) = 0

abbrev pub shown_by : Result (List AnonymousResult × ℕ) → ℕ
shown_by (ok (xs, n)) = length xs
shown_by (err e) = 0

length-add_shown :
    (services : SearchServices) (c : Candidate) (answer : Option Enriched)
    (rest : List AnonymousResult)
    → length (add_shown services c answer rest) ≤ suc (length rest)
length-add_shown services c none rest = omega arith
length-add_shown services c (some e) rest = omega arith

module _ (services : SearchServices) where
  -- What the loop does with the result of its later rounds.
  add_shown_lem :
      (c : Candidate) (answer : Option Enriched) (later : Result (List AnonymousResult)) (db : Db)
      → (r : Result (List AnonymousResult)) × (continue later
            (λ rest. pure (add_shown services c answer rest))
            db
          ≡ (r, db))
        × (people r ≤ suc (people later))
  unfolding pure
  add_shown_lem c answer (ok rest) db =
      (ok (add_shown services c answer rest), refl, length-add_shown services c answer rest)
  add_shown_lem c answer (err e) db = (err e, refl, omega arith)

  -- The loop writes nothing and shows each candidate once at most.
  enrich_candidates_lem :
      (cs : List Candidate) (db : Db)
      → (r : Result (List AnonymousResult)) × (enrich_candidates services cs db ≡ (r, db))
        × (people r ≤ length cs)
  unfolding enrich_candidates ◌>>=◌
  enrich_candidates_lem [] db = (ok [], refl, omega arith)
  enrich_candidates_lem (c ∷ cs) db =
      elim (Option-cases (services.enrich_person c.apollo_person_id)) [
        | inl thrown ↦ (err service_unavailable, rw thrown refl, omega arith)
        | inr (answer, e) ↦
            (let (later, h, few) = enrich_candidates_lem cs db in
              let (r, h', few') = add_shown_lem c answer later db in
              (r, rw (e, h) h', omega (arith, few, few')))
      ]

  -- A search writes nothing and shows three people at most.
  search_for_lem :
      (parsed : Option String) (db : Db)
      → (r : Result (List AnonymousResult)) × (search_for services parsed db ≡ (r, db))
        × (people r ≤ 3)
  unfolding search_for ◌>>=◌
  search_for_lem (some name) db = elim (Option-cases (services.match_by_name name)) [
    | inl thrown ↦ (err service_unavailable, rw thrown refl, omega arith)
    | inr (none, e) ↦ (ok [], rw e refl, omega arith)
    | inr (some found, e) ↦ (ok (shown_person name (some found)), rw e refl, omega arith)
  ]
  search_for_lem none db = elim (Option-cases services.search_people) [
    | inl thrown ↦ (err service_unavailable, rw thrown refl, omega arith)
    | inr (candidates, e) ↦
        (let (r, h, few) = enrich_candidates_lem (take 3 candidates) db in
          (r, simp (e, h), omega (arith, few, length-take-le 3 candidates)))
  ]

  -- A search that is let through writes no more, and shows three people at most.
  pub run_admitted :
      (env : AnonymousEnv) (ip remaining : ℕ) (db db' : Db)
      → check_anonymous_search_limit env ip db ≡ (ok remaining, db')
      → (r : Result (List AnonymousResult × ℕ)) × (run_anonymous_search services env ip db
          ≡ (r, db'))
        × (shown_by r ≤ 3)
  unfolding run_anonymous_search ◌>>=◌
  run_admitted env ip remaining db db' admitted = elim (Option-cases services.parsed_name) [
    | inl thrown ↦ (err service_unavailable, rw (admitted, thrown) refl, omega arith)
    | inr (parsed, e) ↦
        (let (r, h, few) = search_for_lem parsed db' in
          elim (Result-cases r) [
            | inl (xs, is_ok) ↦
                (let few = rw is_ok at few in
                  (ok (xs, remaining), rw (admitted, e, h, is_ok) refl, few))
            | inr (x, is_err) ↦ (err x, rw (admitted, e, h, is_err) refl, omega arith)
          ])
  ]

  pub run_refused :
      (env : AnonymousEnv) (ip : ℕ) (x : Error) (db db' : Db)
      → check_anonymous_search_limit env ip db ≡ (err x, db')
      → run_anonymous_search services env ip db ≡ (err x, db')
  unfolding run_anonymous_search ◌>>=◌
  run_refused env ip x db db' refused = rw refused refl
