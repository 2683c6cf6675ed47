-- ===== src/LeadSearch/Apollo/Laws.antt =====
-- What a search for one person costs, by the answer of Apollo.
use conference_contact.Prelude.{
  ℕ, ◌-◌, ◌==◌, ◌≡◌, refl, ◌∙◌, Bool, true, false, Option, none, some, find_first, ltb,
}
use conference_contact.Schema.{Db}
use conference_contact.Schema.Accounts.{User}
use conference_contact.Schema.Leads.{LeadSearchJob, completed}
use conference_contact.Action.{ok}
use conference_contact.Guards.{find_user}
use conference_contact.LeadSearch.Credits.{unlimited}
use conference_contact.LeadSearch.Enrichment.{Enriched}
use conference_contact.LeadSearch.Enrichment.Laws.{OnlyRow}
use conference_contact.LeadSearch.DirectMatch.{DirectSearch, process_by_name}
use conference_contact.LeadSearch.DirectMatch.Laws.{
  HasStatus, outcome, price, process_by_name-price,
}
use conference_contact.LeadSearch.Apollo.{
  Answer, unreachable, refused, malformed, body, MatchPerson, match_person,
}

-- One credit for a person, whatever Apollo says about the person.
abbrev pub people_named : Answer (Option MatchPerson) → ℕ
people_named (body (some p)) = 1
people_named _ = 0

price-match_person :
    (answer : Answer (Option MatchPerson))
    → price (some (match_person answer)) ≡ people_named answer
unfolding match_person
price-match_person unreachable = refl
price-match_person refused = refl
price-match_person malformed = refl
price-match_person (body none) = refl
price-match_person (body (some p)) = refl

outcome-found : (b : Bool) (found : Option Enriched) → outcome b (some found) ≡ completed
outcome-found true found = refl
outcome-found false found = refl

-- Whatever the network does to the call: for a user without unlimited access, whose row is the only
-- one with its id, and a job that is there, the search for a person by name returns with the job
-- completed. It costs one credit exactly when Apollo's answer names a person, also when the address of
-- the person is missing or locked, and none otherwise; the credits never fall below zero.
pub match_person-price :
    (q : DirectSearch) (answer : Answer (Option MatchPerson)) (db : Db) {u : User}
    {j : LeadSearchJob}
    → OnlyRow q.user_id u db.users
    → unlimited (some u) ≡ false
    → find_first (λ r. r.id == q.job_id) db.jobs ≡ some j
    → let (r, db') = process_by_name q (some (match_person answer)) db in
      (r ≡ ok tt)
      × HasStatus q.job_id completed db'
      × ((w : User) × (find_user q.user_id db' ≡ some w)
          × (w.lead_finder_credits ≡ u.lead_finder_credits - people_named answer))
match_person-price q answer db {u} {j} own limited job =
    let (returned, (j', found, status), (w, found_w, paid)) =
      process_by_name-price q (some (match_person answer)) db {u = u} {j = j} own limited job in
    (
      returned,
      (j', found, status ∙ outcome-found (ltb 0 u.lead_finder_credits) (match_person answer)),
      (w, found_w, paid ∙ rw (price-match_person answer) refl),
    )
