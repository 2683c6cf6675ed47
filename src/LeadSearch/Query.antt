-- ===== src/LeadSearch/Query.antt =====
-- From the words of a user to the filters of a search: `parseApolloQuery` of
-- src/leads/claude.service.ts, `parseQuery` and `buildApolloFilters` of src/leads/leads.service.ts,
-- the check of src/leads/dto/ai-search.dto.ts and the values of src/leads/apollo-taxonomy.ts that it
-- admits. The answer of Claude is a parameter, where `none` is an exception. The lengths of texts
-- are not checked here.
pub mod Laws
use Prim.Native.String.{String, ◌++◌ as ◌++ˢ◌}
use Prim.Native.Char.{code}
use conference_contact.Prelude.{
  ℕ, ◌-◌, ltb, if◌then◌else◌, Bool, true, false, ◌&&◌, Option, none, some, List, [], ◌∷◌, ◌++◌,
  length, leb, or_else, if◌then◌else◌,
}
use conference_contact.Prelude.Sets.{has}
use conference_contact.Action.{Action, service_unavailable, or_raise, pure, ◌>>=◌}
use conference_contact.Email.Words.{truthy}
use conference_contact.LeadSearch.Apollo.{ApolloSearchFilters, listed, said}

abbrev pub verified_person_functions : List String
verified_person_functions =
    "product_management" ∷ "data_science" ∷ "accounting" ∷ "finance" ∷ "human_resources"
    ∷ "information_technology" ∷ "legal" ∷ "marketing" ∷ "operations" ∷ "business_development"
    ∷ "sales" ∷ []

abbrev pub person_seniorities : List String
person_seniorities =
    "owner" ∷ "founder" ∷ "c_suite" ∷ "partner" ∷ "vp" ∷ "head" ∷ "director" ∷ "manager" ∷ "senior"
    ∷ "entry" ∷ "intern" ∷ []

abbrev pub company_size_values : List String
company_size_values =
    "1,10" ∷ "11,20" ∷ "21,50" ∷ "51,100" ∷ "101,200" ∷ "201,500" ∷ "501,1000" ∷ "1001,2000"
    ∷ "2001,5000" ∷ "5001,10000" ∷ "10001,20000" ∷ "20001,50000" ∷ "50001,100000000" ∷ []

pub record AiSearchDto : Type 0 where
  pub campaign_name : String
  pub search_keywords : Option (List String)
  pub target_industries : Option (List String)
  pub person_titles : Option (List String)
  pub person_seniorities : Option (List String)
  pub person_functions : Option (List String)
  pub location : Option String
  pub company_size_ranges : Option (List String)
  pub revenue_min : Option ℕ
  pub revenue_max : Option ℕ
  pub exclusions : Option (List String)
  pub person_name : Option String
  pub person_organization : Option String

-- `@IsOptional()` and `@ArrayMaxSize(n)`
abbrev at_most : ℕ → Option (List String) → Bool
at_most n none = true
at_most n (some values) = leb (length values) n

abbrev pub each_in : List String → List String → Bool
each_in allowed [] = true
each_in allowed (v ∷ vs) = has allowed v && each_in allowed vs

-- `@IsOptional()`, `@ArrayMaxSize(…)` and `@IsIn(…, { each: true })`
abbrev pub chosen_from : List String → Option (List String) → Bool
chosen_from allowed none = true
chosen_from allowed (some values) = leb (length values) (length allowed) && each_in allowed values

unfoldable pub is_admitted : AiSearchDto → Bool
is_admitted dto =
    at_most 20 dto.search_keywords
    && at_most 20 dto.target_industries
    && at_most 20 dto.person_titles
    && chosen_from person_seniorities dto.person_seniorities
    && chosen_from verified_person_functions dto.person_functions
    && chosen_from company_size_values dto.company_size_ranges
    && at_most 20 dto.exclusions

-- `location ? [location] : undefined`
abbrev only : Option String → Option (List String)
only none = none
only (some s) = some (s ∷ [])

unfoldable pub build_apollo_filters : AiSearchDto → ApolloSearchFilters
build_apollo_filters dto = record {
  keywords = none;
  organization_keyword_tags =
      some (or_else dto.search_keywords [] ++ or_else dto.target_industries []);
  exclude_organization_keyword_tags = dto.exclusions;
  person_titles = dto.person_titles;
  person_seniorities = dto.person_seniorities;
  person_functions = dto.person_functions;
  person_locations = none;
  organization_locations = only (said dto.location);
  organization_num_employees_ranges = dto.company_size_ranges;
  revenue_min = dto.revenue_min;
  revenue_max = dto.revenue_max;
  person_name = dto.person_name;
  person_organization = dto.person_organization;
}

pub record ParsedSearchFilters : Type 0 where
  pub campaign_name : String
  pub search_keywords : List String
  pub target_industries : List String
  pub person_titles : List String
  pub person_seniorities : List String
  pub location : String
  pub person_name : String
  pub person_organization : String

-- `Partial<ParsedSearchFilters>`, what Claude fills in
pub record PartialFilters : Type 0 where
  pub campaign_name : Option String
  pub search_keywords : Option (List String)
  pub target_industries : Option (List String)
  pub person_titles : Option (List String)
  pub person_seniorities : Option (List String)
  pub location : Option String
  pub person_name : Option String
  pub person_organization : Option String

abbrev join_titles : List String → String
join_titles [] = ""
join_titles (t ∷ []) = t
join_titles (t ∷ u ∷ ts) = t ++ˢ ", " ++ˢ join_titles (u ∷ ts)

-- the message to Claude
abbrev pub user_content : String → Option (List String) → String
user_content query job_titles = elim (listed job_titles) [
  | none ↦ query
  | some titles ↦ query ++ˢ "\n\nTarget job titles: " ++ˢ join_titles titles
]

-- `slice(0, n)`, in units of UTF-16; a pair of units at the cut is left out whole
slice_units : ℕ → String → String
slice_units n String.[] = ""
slice_units n (String.◌∷◌ c s) =
    let width = if ltb (code c) 65536 then 1 else 2 in
    let rest = slice_units (n - width) s in if leb width n then String.◌∷◌ c rest else ""

-- what is made of the answer: `none` has no use of the tool
unfoldable pub parsed_filters :
    String → Option (List String) → Option PartialFilters → ParsedSearchFilters
unfolding slice_units
parsed_filters query job_titles none = record {
  campaign_name = slice_units 200 query;
  search_keywords = [];
  target_industries = [];
  person_titles = or_else job_titles [];
  person_seniorities = [];
  location = "";
  person_name = "";
  person_organization = "";
}
parsed_filters query job_titles (some input) = record {
  campaign_name = or_else (said input.campaign_name) (slice_units 200 query);
  search_keywords = or_else input.search_keywords [];
  target_industries = or_else input.target_industries [];
  person_titles = or_else (listed input.person_titles) (or_else job_titles []);
  person_seniorities = or_else input.person_seniorities [];
  location = or_else input.location "";
  person_name = or_else input.person_name "";
  person_organization = or_else input.person_organization "";
}

-- `claude` answers a message, and `none` is an exception
unfoldable pub parse_query :
    (String → Option (Option PartialFilters))
    → String
    → Option (List String)
    → Action ParsedSearchFilters
unfolding parsed_filters
parse_query claude query job_titles = do
  answer ← or_raise (claude (user_content query job_titles)) service_unavailable
  pure (parsed_filters query job_titles answer)

-- the draft of a visitor's search, which goes to `buildApolloFilters` as it is
abbrev pub draft_dto : ParsedSearchFilters → AiSearchDto
draft_dto p = record {
  campaign_name = p.campaign_name;
  search_keywords = some p.search_keywords;
  target_industries = some p.target_industries;
  person_titles = some p.person_titles;
  person_seniorities = some p.person_seniorities;
  person_functions = none;
  location = some p.location;
  company_size_ranges = none;
  revenue_min = none;
  revenue_max = none;
  exclusions = none;
  person_name = some p.person_name;
  person_organization = some p.person_organization;
}
