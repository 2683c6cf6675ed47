-- ===== src/LeadSearch/Apollo.antt =====
-- src/leads/apollo.service.ts: the request of a search for people, and what is made of the answers of
-- Apollo. What the network does to a call is a parameter.
pub mod Laws
use Prim.Native.String.{String, ◌++◌ as ◌++ˢ◌}
use text.Mathlib.Text.{find?}
use conference_contact.Prelude.{
  ℕ, Bool, true, false, not, ◌&&◌, ◌||◌, Option, none, some, List, [], ◌∷◌, is_some, min, map,
  or_else, if◌then◌else◌,
}
use conference_contact.LeadSearch.Anonymous.{Candidate}
use conference_contact.LeadSearch.Enrichment.{Enriched}
use conference_contact.Email.Words.{truthy}

-- `ApolloSearchFilters`
pub record ApolloSearchFilters : Type 0 where
  pub keywords : Option String
  pub organization_keyword_tags : Option (List String)
  pub exclude_organization_keyword_tags : Option (List String)
  pub person_titles : Option (List String)
  pub person_seniorities : Option (List String)
  pub person_functions : Option (List String)
  pub person_locations : Option (List String)
  pub organization_locations : Option (List String)
  pub organization_num_employees_ranges : Option (List String)
  pub revenue_min : Option ℕ
  pub revenue_max : Option ℕ
  pub person_name : Option String
  pub person_organization : Option String

-- the body of the request; `none` is a key that is left out
pub record SearchBody : Type 0 where
  pub page : ℕ
  pub per_page : ℕ
  pub person_titles : Option (List String)
  pub include_similar_titles : Bool
  pub q_keywords : Option String
  pub q_organization_keyword_tags : Option (List String)
  pub q_not_organization_keyword_tags : Option (List String)
  pub person_seniorities : Option (List String)
  pub person_functions : Option (List String)
  pub person_locations : Option (List String)
  pub organization_locations : Option (List String)
  pub organization_num_employees_ranges : Option (List String)
  pub revenue_range : Option (Option ℕ × Option ℕ)

-- `if (values?.length)`
abbrev pub listed : Option (List String) → Option (List String)
listed none = none
listed (some []) = none
listed (some (x ∷ xs)) = some (x ∷ xs)

-- `if (text)`
abbrev pub said : Option String → Option String
said none = none
said (some s) = truthy s

unfoldable pub search_body : ApolloSearchFilters → ℕ → SearchBody
search_body f per_page = record {
  page = 1;
  per_page = min per_page 100;
  person_titles = listed f.person_titles;
  include_similar_titles = is_some (listed f.person_titles);
  q_keywords = said f.keywords;
  q_organization_keyword_tags = listed f.organization_keyword_tags;
  q_not_organization_keyword_tags = listed f.exclude_organization_keyword_tags;
  person_seniorities = listed f.person_seniorities;
  person_functions = listed f.person_functions;
  person_locations = listed f.person_locations;
  organization_locations = listed f.organization_locations;
  organization_num_employees_ranges = listed f.organization_num_employees_ranges;
  revenue_range =
      if is_some f.revenue_min || is_some f.revenue_max
      then some (f.revenue_min, f.revenue_max)
      else none;
}

-- What becomes of a call: the connection fails or times out, the status is not a success, the body is
-- not JSON, or it is.
pub data Answer (A : Type 0) : Type 0 where
  unreachable refused malformed : Answer A
  body : A → Answer A

-- `ApolloSearchPerson`
pub record FoundPerson : Type 0 where
  pub id : ℕ
  pub first_name : Option String
  pub last_name_obfuscated : Option String
  pub title : Option String
  pub organization_name : Option String

-- `[first, last].filter(Boolean).join(' ') || 'Unknown'`
abbrev pub joined_name : Option String → Option String → String
joined_name none none = "Unknown"
joined_name none (some last) = last
joined_name (some first) none = first
joined_name (some first) (some last) = first ++ˢ " " ++ˢ last

abbrev pub candidate_of : FoundPerson → Candidate
candidate_of p = record {
  apollo_person_id = p.id;
  name = joined_name (said p.first_name) (said p.last_name_obfuscated);
  title = p.title;
  company = p.organization_name;
}

-- `none` is an exception
unfoldable pub search_people : Answer (Option (List FoundPerson)) → Option (List Candidate)
search_people unreachable = none
search_people refused = none
search_people malformed = none
search_people (body people) = some (map candidate_of (or_else people []))

-- `ApolloMatchPerson`
pub record MatchPerson : Type 0 where
  pub name : Option String
  pub title : Option String
  pub organization_name_inside : Option String
  pub organization_name : Option String
  pub linkedin_url : Option String
  pub email : Option String

abbrev or_option : Option String → Option String → Option String
or_option none b = b
or_option (some a) b = some a

-- an address is kept when there is one and it is no placeholder of a locked one
abbrev pub unlocked : Option String → Option String
unlocked none = none
unlocked (some email) = if is_some (find? email "not_unlocked") then none else some email

abbrev pub enriched_of : MatchPerson → Enriched
enriched_of p = record {
  name = p.name;
  title = p.title;
  company = or_option p.organization_name_inside p.organization_name;
  linkedin = p.linkedin_url;
  email = unlocked (said p.email);
}

-- `match`, which catches what goes wrong
unfoldable pub match_person : Answer (Option MatchPerson) → Option Enriched
match_person unreachable = none
match_person refused = none
match_person malformed = none
match_person (body none) = none
match_person (body (some p)) = some (enriched_of p)
