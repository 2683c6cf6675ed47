-- ===== src/Directory.antt =====
-- The directory of leads: `buildWhere`, `list`, `count`, `preview`, `submitSelf` of
-- src/leads/leads.service.ts, and the leads of src/admin/admin.service.ts. What the database does
-- with texts, the order by name and the match of a search, is a parameter. A query is a number, since
-- rows of the same name may come in another order in another query.
pub mod Laws
pub mod Order
use conference_contact.Prelude.{
  ℕ, ◌+◌, String, Bool, true, false, not, ◌&&◌, ◌||◌, Option, none, some, List, [], ◌∷◌, ◌++◌, ◌==◌,
  leb, ltb, length, take, map, find_first, filter_where, update_where, count_where, is_some,
  is_value, or_else, if◌then◌else◌,
}
use text.Mathlib.Text.{◌==◌ as str_eq}
use conference_contact.Schema.{Db, audit}
use conference_contact.Schema.Admin.{Lead}
use conference_contact.Action.{
  Action, not_found, bad_request, pure, raise_if, gets, or_raise, modify, emit, ◌>>=◌, ◌>>◌,
}
use conference_contact.Pages.{Page, PageQuery, page_of, rows_of_page}

-- The place of a name in the order of the database, what a query with `orderBy: { name: 'asc' }`
-- makes of the rows, and `contains` with `mode: 'insensitive'`.
pub record Collation : Type 0 where
  pub rank : String → ℕ
  pub by_name : ℕ → List Lead → List Lead
  pub contains : String → String → Bool

-- `resolveCompanyTypeFilter`: no filter, the rows without a type, or those of one type
pub data CompanyTypeFilter : Type 0 where
  any_type unclassified : CompanyTypeFilter
  of_type : ℕ → CompanyTypeFilter

abbrev pub has_company_type : CompanyTypeFilter → Option ℕ → Bool
has_company_type any_type t = true
has_company_type unclassified t = not (is_some t)
has_company_type (of_type c) t = is_value t c

-- `LeadFilters`
pub record LeadFilters : Type 0 where
  pub company_type : CompanyTypeFilter
  pub likely_to_attend : Option String
  pub has_email : Bool
  pub search : Option String

-- a condition that is there only when the filter has a value
abbrev when_given {ℓ} : {A : Type ℓ} → Option A → (A → Bool) → Bool
when_given none test = true
when_given (some a) test = test a

-- `select` of the preview
pub record PreviewRow : Type 0 where
  pub name : String
  pub title : Option String
  pub company : Option String
  pub company_type : Option ℕ
  pub likely_to_attend : String

abbrev pub preview_row : Lead → PreviewRow
preview_row l = record {
  name = l.name;
  title = l.title;
  company = l.company;
  company_type = l.company_type;
  likely_to_attend = l.likely_to_attend;
}

module _ (db_text : Collation) where
  -- a nullable column contains the text
  abbrev column_contains : String → Option String → Bool
  column_contains text none = false
  column_contains text (some value) = db_text.contains value text

  abbrev searched : String → Lead → Bool
  searched text l =
      db_text.contains l.name text
      || column_contains text l.company
      || column_contains text l.title
      || column_contains text l.email
      || db_text.contains l.likely_to_attend text

  abbrev pub build_where : LeadFilters → Lead → Bool
  build_where f l =
      l.approved
      && (has_company_type f.company_type l.company_type
          && (when_given f.likely_to_attend (str_eq l.likely_to_attend)
              && ((not f.has_email || is_some l.email)
                  && when_given f.search (λ text. searched text l))))

  abbrev pub matching : LeadFilters → Db → List Lead
  matching f db = filter_where (build_where f) db.leads

  abbrev pub list : ℕ → LeadFilters → Db → PageQuery → Page Lead
  list query f db q = record {
    data_rows = rows_of_page q (db_text.by_name query (matching f db));
    page = q.page;
    page_size = q.page_size;
    total = count_where (build_where f) db.leads;
  }

  abbrev pub count_leads : LeadFilters → Db → ℕ
  count_leads f db = count_where (build_where f) db.leads

  -- the rows that `exportCsv` writes
  abbrev pub exported : ℕ → LeadFilters → Db → List Lead
  exported query f db = db_text.by_name query (matching f db)

  abbrev pub preview : ℕ → String → Db → List PreviewRow
  preview query text db = take 5 (
      map preview_row (
        db_text.by_name query (
          matching
            (record {
              company_type = any_type;
              likely_to_attend = none;
              has_email = false;
              search = some text;
            })
            db)))

-- `SelfSubmitLeadDto`, `CreateLeadDto`
pub record LeadDto : Type 0 where
  pub name : String
  pub title : Option String
  pub company : Option String
  pub website : Option String
  pub linkedin : Option String
  pub app_link : Option String
  pub email : Option String
  pub phone : Option String
  pub company_type : Option ℕ
  pub likely_to_attend : String

abbrev pub new_lead : ℕ → ℕ → Bool → Option ℕ → LeadDto → Lead
new_lead now fresh approved submitted_by dto = record {
  id = fresh;
  name = dto.name;
  title = dto.title;
  company = dto.company;
  website = dto.website;
  linkedin = dto.linkedin;
  app_link = dto.app_link;
  email = dto.email;
  phone = dto.phone;
  company_type = dto.company_type;
  likely_to_attend = dto.likely_to_attend;
  approved = approved;
  submitted_by_user_id = submitted_by;
  created_at = now;
}

abbrev insert_lead : Lead → Action (Unit {0})
insert_lead l = modify λ db. record db { leads = db.leads ++ l ∷ [] }

unfoldable pub submit_self : ℕ → ℕ → ℕ → LeadDto → Action Lead
unfolding modify
submit_self now fresh user_id dto = do
  insert_lead (new_lead now fresh false (some user_id) dto)
  emit (audit (some user_id) "leads.self_submitted" (some fresh))
  pure (new_lead now fresh false (some user_id) dto)

unfoldable pub create_lead : ℕ → ℕ → ℕ → LeadDto → Action Lead
unfolding modify
create_lead now fresh admin dto = do
  insert_lead (new_lead now fresh true none dto)
  emit (audit (some admin) "admin.lead_created" (some fresh))
  pure (new_lead now fresh true none dto)

abbrev pub find_lead : ℕ → Db → Option Lead
find_lead id db = find_first (λ l. l.id == id) db.leads

abbrev pub approved_lead : Lead → Lead
approved_lead l = record l { approved = true }

unfoldable pub approve_lead : ℕ → ℕ → Action Lead
approve_lead admin id = do
  existing ← gets (find_lead id)
  found ← or_raise existing not_found
  raise_if found.approved bad_request
  modify (λ db. record db { leads = update_where (λ l. l.id == id) approved_lead db.leads })
  emit (audit (some admin) "admin.lead_approved" (some id))
  pure (approved_lead found)

-- `UpdateLeadDto`: the columns that are given
pub record UpdateLeadDto : Type 0 where
  pub name : Option String
  pub title : Option String
  pub company : Option String
  pub website : Option String
  pub linkedin : Option String
  pub app_link : Option String
  pub email : Option String
  pub phone : Option String
  pub company_type : Option ℕ
  pub likely_to_attend : Option String

-- a nullable column after an update
abbrev or_column {ℓ} : {A : Type ℓ} → Option A → Option A → Option A
or_column none column = column
or_column (some value) column = some value

abbrev pub updated_lead : UpdateLeadDto → Lead → Lead
updated_lead dto l = record l {
  name = or_else dto.name l.name;
  title = or_column dto.title l.title;
  company = or_column dto.company l.company;
  website = or_column dto.website l.website;
  linkedin = or_column dto.linkedin l.linkedin;
  app_link = or_column dto.app_link l.app_link;
  email = or_column dto.email l.email;
  phone = or_column dto.phone l.phone;
  company_type = or_column dto.company_type l.company_type;
  likely_to_attend = or_else dto.likely_to_attend l.likely_to_attend;
}

unfoldable pub update_lead : ℕ → ℕ → UpdateLeadDto → Action Lead
update_lead admin id dto = do
  existing ← gets (find_lead id)
  found ← or_raise existing not_found
  modify (λ db. record db { leads = update_where (λ l. l.id == id) (updated_lead dto) db.leads })
  emit (audit (some admin) "admin.lead_updated" (some id))
  pure (updated_lead dto found)

unfoldable pub delete_lead : ℕ → ℕ → Action (Unit {0})
delete_lead admin id = do
  existing ← gets (find_lead id)
  found ← or_raise existing not_found
  modify (λ db. record db { leads = filter_where (λ l. not (l.id == id)) db.leads })
  emit (audit (some admin) "admin.lead_deleted" (some id))
