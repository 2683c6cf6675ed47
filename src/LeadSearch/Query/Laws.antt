-- ===== src/LeadSearch/Query/Laws.antt =====
-- Which values reach Apollo.
use conference_contact.Prelude.{
  ℕ, ◌≡◌, refl, true, Option, none, some, String, List, [], ◌∷◌, All, or_else, leb, arith,
}
use conference_contact.Prelude.Sets.{has}
use conference_contact.LeadSearch.Apollo.{search_body, listed}
use conference_contact.LeadSearch.Query.{
  verified_person_functions, person_seniorities, company_size_values, AiSearchDto, each_in,
  chosen_from, is_admitted, build_apollo_filters, ParsedSearchFilters, draft_dto,
}

-- Every value of a filter that is sent is one of a list.
abbrev pub SentFrom : List String → Option (List String) → Type 0
SentFrom allowed sent = All (λ v. has allowed v ≡ true) (or_else sent [])

each_in-All :
    (allowed values : List String)
    → each_in allowed values ≡ true
    → All (λ v. has allowed v ≡ true) values
each_in-All allowed [] h = tt
each_in-All allowed (v ∷ vs) h = (ground (arith, h), each_in-All allowed vs (ground (arith, h)))

listed-SentFrom :
    (allowed : List String) (values : Option (List String))
    → chosen_from allowed values ≡ true
    → SentFrom allowed (listed values)
listed-SentFrom allowed none h = tt
listed-SentFrom allowed (some []) h = tt
listed-SentFrom allowed (some (v ∷ vs)) h = each_in-All allowed (v ∷ vs) (ground (arith, h))

-- Of a search that passes the check, only verified functions, documented seniorities and known
-- company sizes reach Apollo, in one page of at most a hundred people; and the search of a visitor,
-- whatever Claude made of the query, sends no function and no company size.
pub sent_filters_known :
    (dto : AiSearchDto) (draft : ParsedSearchFilters) (per_page : ℕ)
    → is_admitted dto ≡ true
    → let b = search_body (build_apollo_filters dto) per_page in
      let v = search_body (build_apollo_filters (draft_dto draft)) per_page in
      SentFrom verified_person_functions b.person_functions
      × SentFrom person_seniorities b.person_seniorities
      × SentFrom company_size_values b.organization_num_employees_ranges
      × (leb b.per_page 100 ≡ true)
      × (v.person_functions ≡ none)
      × (v.organization_num_employees_ranges ≡ none)
unfolding is_admitted build_apollo_filters search_body
sent_filters_known dto draft per_page h = (
  listed-SentFrom verified_person_functions dto.person_functions (ground (arith, h)),
  listed-SentFrom person_seniorities dto.person_seniorities (ground (arith, h)),
  listed-SentFrom company_size_values dto.company_size_ranges (ground (arith, h)),
  ground arith,
  refl,
  refl,
)
