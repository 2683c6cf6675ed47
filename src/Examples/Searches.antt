-- ===== src/Examples/Searches.antt =====
-- The theorems on searches, at concrete inputs.
use conference_contact.Prelude.{
  ltb, ℕ, ◌+◌, ◌-◌, ◌*◌, ◌≤◌, arith, ◌≡◌, refl, true, false, Option, none, some, List, [], ◌∷◌,
  ◌==◌, if◌then◌else◌,
}
use conference_contact.Schema.Accounts.{User}
use conference_contact.Schema.Leads.{
  LeadSearchJob, running, completed, LeadSearchResult, pending, new,
}
use conference_contact.Guards.{find_user}
use conference_contact.LeadSearch.Enrichment.{Enriched, enrich_all}
use conference_contact.LeadSearch.Enrichment.Laws.{Paid, enrich_all-Paid}
use conference_contact.LeadSearch.Credits.{has_paid_lead_finder_access}
use conference_contact.LeadSearch.Start.{SearchEnv}
use conference_contact.LeadSearch.Start.Laws.{started, used_since, started_capped}
use conference_contact.Action.{ok}
use conference_contact.LeadSearch.DirectMatch.{DirectSearch, process_by_name}
use conference_contact.LeadSearch.DirectMatch.Laws.{HasStatus}
use conference_contact.LeadSearch.Apollo.{MatchPerson, body, match_person}
use conference_contact.LeadSearch.Apollo.Laws.{people_named, match_person-price}
use conference_contact.LeadSearch.Process.{SearchRun, process_search}
use conference_contact.LeadSearch.Process.Laws.{HasSettled, process_search-settled}
use conference_contact.LeadSearch.Anonymous.{SearchServices, Candidate}
use conference_contact.LeadSearch.Anonymous.Laws.{Request, people_shown, visitor_capped}
use conference_contact.Examples.{ada, empty_db}

abbrev result : ℕ → LeadSearchResult
result id = record {
  id = id;
  job_id = 1;
  apollo_person_id = id;
  name = "Grace";
  title = none;
  company = none;
  linkedin = none;
  email = none;
  status = pending;
  review_status = new;
}

-- The first person is found, and nobody else.
abbrev answers : ℕ → Option (Option Enriched)
answers id =
    if id == 1
    then some (
        some (record {
          name = none;
          title = some "Admiral";
          company = none;
          linkedin = none;
          email = some "grace@example.com";
        }))
    else some none

enrich_all-Paid_example :
    let (r, db') = enrich_all answers (λ id. false) 1 1 (result 1 ∷ result 2 ∷ []) empty_db in
    (w : User) × (find_user 1 db' ≡ some w) × Paid r 5 w.lead_finder_credits
enrich_all-Paid_example =
    enrich_all-Paid answers (λ id. false) 1 1 (result 1 ∷ result 2 ∷ []) empty_db {u = ada}
      (refl, ((λ h. refl), tt)) refl

abbrev midday : ℕ → SearchEnv
midday fresh = record {
  now = 500 + fresh;
  start_of_today = 100;
  fresh = fresh;
  queue_up = ltb fresh 3;
  max_results_per_search = 25;
  grace_period_days = 7;
}

started_capped_example : started 1 (midday 1 ∷ midday 3 ∷ []) empty_db + used_since 1 100 [] ≤ 4
unfolding has_paid_lead_finder_access
started_capped_example =
    started_capped 1 100 (midday 1 ∷ midday 3 ∷ []) empty_db
      ((refl, omega arith, refl), ((refl, omega arith, refl), tt)) (omega arith)

abbrev direct_search : DirectSearch
direct_search = record {
  job_id = 1;
  user_id = 1;
  person_name = "Grace";
  person_organization = none;
  fresh = 9;
  person_key = 90;
}

abbrev one_job : List LeadSearchJob
one_job = record { id = 1; user_id = 1; status = running; has_filters = true; created_at = 0 } ∷ []

abbrev candidate : ℕ → Candidate
candidate id = record { apollo_person_id = id; name = "Grace"; title = none; company = none }

abbrev locked : MatchPerson
locked = record {
  name = some "Grace";
  title = none;
  organization_name_inside = none;
  organization_name = none;
  linkedin_url = none;
  email = some "email_not_unlocked@domain.com";
}

match_person-price_example :
    let (r, db') =
      process_by_name direct_search
        (some (match_person (body (some locked))))
        (record empty_db { jobs = one_job }) in
    (r ≡ ok tt)
    × HasStatus 1 completed db'
    × ((w : User) × (find_user 1 db' ≡ some w)
        × (w.lead_finder_credits ≡ ada.lead_finder_credits - people_named (body (some locked))))
match_person-price_example =
    match_person-price direct_search (body (some locked)) (record empty_db { jobs = one_job })
      {u = ada} (refl, ((λ h. refl), tt)) refl refl

abbrev search_run : SearchRun
search_run = record {
  job_id = 1;
  user_id = 1;
  cap = 2;
  exclude_apollo_person_ids = 3 ∷ [];
  fresh = 10;
}

process_search-settled_example :
    let (r, db') =
      process_search
        (λ n. some (candidate 1 ∷ candidate 2 ∷ candidate 3 ∷ []))
        answers
        (λ id. id == 11)
        search_run
        (record empty_db { jobs = one_job }) in
    (r ≡ ok tt) × HasSettled 1 db'
process_search-settled_example =
    process_search-settled (λ n. some (candidate 1 ∷ candidate 2 ∷ candidate 3 ∷ [])) answers
      (λ id. id == 11) search_run (record empty_db { jobs = one_job }) refl tt

-- Four people match, of whom one is known.
abbrev services : SearchServices
services = record {
  parsed_name = some none;
  match_by_name = λ name. some none;
  search_people = some (candidate 1 ∷ candidate 2 ∷ candidate 3 ∷ candidate 4 ∷ []);
  enrich_person = answers;
}

abbrev request : ℕ → Request
request second = record {
  env = record { now = second * 1000; seconds_until_midnight = 100 - second; redis_up = true };
  services = services;
}

visitor_capped_example :
    people_shown 7 (request 1 ∷ request 2 ∷ request 3 ∷ request 4 ∷ []) empty_db ≤ 9
visitor_capped_example =
    visitor_capped 7 100000 (request 1 ∷ request 2 ∷ request 3 ∷ request 4 ∷ []) empty_db (
      (omega arith, omega arith, refl),
      (
        (omega arith, omega arith, refl),
        ((omega arith, omega arith, refl), ((omega arith, omega arith, refl), tt)),
      ),
    )
