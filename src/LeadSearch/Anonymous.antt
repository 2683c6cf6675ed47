-- ===== src/LeadSearch/Anonymous.antt =====
-- The searches of visitors without an account, of src/leads/leads.service.ts. The answers of Claude
-- and Apollo are parameters, where `none` is an exception; an address is a number.
mod Shown
pub mod Laws
use conference_contact.Prelude.{
  ℕ, ◌-◌, ◌*◌, String, Bool, Option, none, some, List, [], ◌∷◌, ltb, take, or_else, if◌then◌else◌,
}
use conference_contact.Schema.{Db, anonymous_search}
use conference_contact.Action.{Action, service_unavailable, forbidden, pure, raise, or_raise, ◌>>=◌}
use conference_contact.LeadSearch.Enrichment.{Enriched}
use conference_contact.Revocation.{count_up, current_count}

abbrev pub anonymous_max_searches_per_day : ℕ
anonymous_max_searches_per_day = 3

abbrev pub anonymous_max_results_per_search : ℕ
anonymous_max_results_per_search = 3

-- The time, and the seconds until midnight.
pub record AnonymousEnv : Type 0 where
  pub now : ℕ
  pub seconds_until_midnight : ℕ
  pub redis_up : Bool

-- the searches that are left after this one; a failure of Redis refuses the search
unfoldable pub check_anonymous_search_limit : AnonymousEnv → ℕ → Action ℕ
unfolding count_up pure raise
check_anonymous_search_limit env ip db =
    if env.redis_up
    then (let (count, db') =
          count_up (anonymous_search ip) (env.seconds_until_midnight * 1000) env.now db in
        if ltb anonymous_max_searches_per_day count
        then raise forbidden db'
        else pure (anonymous_max_searches_per_day - count) db')
    else raise service_unavailable db

-- a peek at the counter, which reports the full allowance when Redis fails
abbrev pub get_anonymous_search_status : AnonymousEnv → ℕ → Db → ℕ
get_anonymous_search_status env ip db =
    if env.redis_up
    then anonymous_max_searches_per_day - current_count (anonymous_search ip) env.now db.counters
    else anonymous_max_searches_per_day

-- `ApolloCandidate`
pub record Candidate : Type 0 where
  pub apollo_person_id : ℕ
  pub name : String
  pub title : Option String
  pub company : Option String

-- an entry of the `results` that the visitor gets
pub record AnonymousResult : Type 0 where
  pub name : String
  pub title : Option String
  pub company : Option String
  pub email : Option String
  pub linkedin : Option String

abbrev or_option : Option String → Option String → Option String
or_option none b = b
or_option (some a) b = some a

abbrev pub shown : Candidate → Enriched → AnonymousResult
shown c e = record {
  name = or_else e.name c.name;
  title = or_option e.title c.title;
  company = or_option e.company c.company;
  email = e.email;
  linkedin = e.linkedin;
}

abbrev pub shown_person : String → Option Enriched → List AnonymousResult
shown_person name none = []
shown_person name (some e) =
    record {
      name = or_else e.name name;
      title = e.title;
      company = e.company;
      email = e.email;
      linkedin = e.linkedin;
    }
    ∷ []

-- the answers of the services to one search: the name that Claude read in the query, if it is about
-- one person, the person that Apollo finds by a name, the people it finds by the filters, and what it
-- knows about each
pub record SearchServices : Type 0 where
  pub parsed_name : Option (Option String)
  pub match_by_name : String → Option (Option Enriched)
  pub search_people : Option (List Candidate)
  pub enrich_person : ℕ → Option (Option Enriched)

module _ (services : SearchServices) where
  abbrev add_shown : Candidate → Option Enriched → List AnonymousResult → List AnonymousResult
  add_shown c none rest = rest
  add_shown c (some e) rest = shown c e ∷ rest

  unfoldable pub enrich_candidates : List Candidate → Action (List AnonymousResult)
  enrich_candidates [] = pure []
  enrich_candidates (c ∷ cs) = do
    answer ← or_raise (services.enrich_person c.apollo_person_id) service_unavailable
    rest ← enrich_candidates cs
    pure (add_shown c answer rest)

  unfoldable pub search_for : Option String → Action (List AnonymousResult)
  unfolding enrich_candidates
  search_for (some name) = do
    answer ← or_raise (services.match_by_name name) service_unavailable
    pure (shown_person name answer)
  search_for none = do
    candidates ← or_raise services.search_people service_unavailable
    enrich_candidates (take anonymous_max_results_per_search candidates)

  unfoldable pub run_anonymous_search : AnonymousEnv → ℕ → Action (List AnonymousResult × ℕ)
  unfolding check_anonymous_search_limit search_for
  run_anonymous_search env ip = do
    remaining ← check_anonymous_search_limit env ip
    parsed ← or_raise services.parsed_name service_unavailable
    results ← search_for parsed
    pure (results, remaining)
