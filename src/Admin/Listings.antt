-- ===== src/Admin/Listings.antt =====
-- The listings for administrators of src/admin/admin.service.ts: which rows they have, in which
-- order, and what they add to a row.
use conference_contact.Prelude.{
  ℕ, ◌-◌, ◌/◌, String, Bool, true, false, not, ◌&&◌, ◌||◌, Option, none, some, List, [], ◌∷◌, ◌==◌,
  leb, ltb, map, any, sort_by, find_latest, filter_where, count_where, if◌then◌else◌,
}
use conference_contact.Schema.{Db}
use conference_contact.Schema.Accounts.{
  User, Session, Role, AccountStatus, active, suspended, deleted, is_active_account, is_admin,
}
use conference_contact.Schema.Admin.{ContactMessage}
use conference_contact.Schema.Billing.{
  Subscription, LeadFinderSubscription, SubscriptionStatus, trialing, active, past_due, canceled,
  expired, is_past_due, is_canceled,
}
use conference_contact.Access.{has_active_access, days_past_due}
use conference_contact.Action.{Action, gets, ◌>>=◌}
use conference_contact.Admin.{is_deleted, find_target}
use conference_contact.Admin.Revenue.{BillingSummary, billing_summary, is_paid}
use conference_contact.Guards.{role_eq, access_check}
use conference_contact.Pages.{Page, PageQuery, rows_of_page}
use conference_contact.Sessions.{open_filter}

-- `orderBy: { …: 'desc' }`
abbrev insert_latest {ℓ} : {A : Type ℓ} → (A → ℕ) → A → List A → List A
insert_latest key x [] = x ∷ []
insert_latest key x (y ∷ ys) =
    let rest = insert_latest key x ys in if ltb (key x) (key y) then y ∷ rest else x ∷ y ∷ ys

abbrev pub sort_latest {ℓ} : {A : Type ℓ} → (A → ℕ) → List A → List A
sort_latest key [] = []
sort_latest key (x ∷ xs) = insert_latest key x (sort_latest key xs)

-- a condition that is there only when the query has a value
abbrev when_given {ℓ} : {A : Type ℓ} → Option A → (A → Bool) → Bool
when_given none test = true
when_given (some a) test = test a

-- `findMany` of a page and `count`, with what is added to each row of the page
abbrev pub listing {ℓ κ} :
    {A : Type ℓ} {B : Type κ} → (A → ℕ) → (A → Bool) → (A → B) → List A → PageQuery → Page B
listing created where_row enrich rows q = record {
  data_rows = map enrich (rows_of_page q (sort_latest created (filter_where where_row rows)));
  page = q.page;
  page_size = q.page_size;
  total = count_where where_row rows;
}

abbrev status_code : AccountStatus → ℕ
status_code active = 0
status_code suspended = 1
status_code deleted = 2

-- `ListUsersQueryDto`; the match of a search is the database's
pub record ListUsersQuery : Type 0 where
  pub status : Option AccountStatus
  pub role : Option Role
  pub search : Option String

abbrev has_status : Option AccountStatus → AccountStatus → Bool
has_status none s = not (is_deleted s)
has_status (some wanted) s = status_code wanted == status_code s

module _ (contains : String → String → Bool) where
  abbrev pub found_user : String → User → Bool
  found_user text u = contains u.email text || contains u.full_name text

  abbrev pub list_users : ListUsersQuery → Db → PageQuery → Page (User × BillingSummary)
  list_users f db =
      listing (λ u. u.created_at)
        (λ u.
          has_status f.status u.status
          && (when_given f.role (λ r. role_eq r u.role)
              && when_given f.search (λ text. found_user text u)))
        (λ u. (u, billing_summary u.id db)) db.users

-- `status: { in: ['ACTIVE', 'TRIALING'] }`
abbrev paying : SubscriptionStatus → Bool
paying trialing = true
paying active = true
paying _ = false

abbrev pub is_prospect : Db → User → Bool
is_prospect db u =
    is_active_account u.status
    && (not (is_admin u.role)
        && (not u.admin_granted_directory_access
            && not (any (λ s. s.user_id == u.id && paying s.status) db.subscriptions)))

-- what the listing adds: the days since the sign-up, and how the newest subscription stands
pub record ProspectInfo : Type 0 where
  pub days_since_signup : ℕ
  pub canceled : Bool
  pub overdue : Bool
  pub paid : Bool

abbrev newest_has : (SubscriptionStatus → Bool) → Option Subscription → Bool
newest_has test none = false
newest_has test (some s) = test s.status

abbrev pub prospect_info : ℕ → Db → User → ProspectInfo
prospect_info now db u =
    let newest = find_latest (λ s. s.user_id == u.id) (λ s. s.created_at) db.subscriptions in
    record {
      days_since_signup = (now - u.created_at) / 86400000;
      canceled = newest_has is_canceled newest;
      overdue = newest_has is_past_due newest;
      paid =
          any
            (λ s.
              s.user_id == u.id
              && any (λ i. i.subscription_id == s.id && is_paid i.status) db.invoices)
            db.subscriptions;
    }

-- oldest account first
abbrev pub list_prospects :
    (String → String → Bool) → Option String → ℕ → Db → PageQuery → Page (User × ProspectInfo)
list_prospects contains search now db q =
    let where_row =
      λ (u : User). is_prospect db u && when_given search (λ text. found_user contains text u) in
    record {
      data_rows =
          map (λ u. (u, prospect_info now db u))
            (rows_of_page q (sort_by (λ u. u.created_at) (filter_where where_row db.users)));
      page = q.page;
      page_size = q.page_size;
      total = count_where where_row db.users;
    }

-- what the two listings of subscriptions add
abbrev pub subscription_row : ℕ → ℕ → Subscription → Subscription × Option ℕ × Bool
subscription_row grace now s =
    (s, days_past_due s.past_due_since now, has_active_access (access_check s) grace now)

abbrev pub tier_subscription_row :
    ℕ → ℕ → LeadFinderSubscription → LeadFinderSubscription × Option ℕ × Bool
tier_subscription_row grace now s = (
  s,
  days_past_due s.past_due_since now,
  has_active_access (record { status = s.status; past_due_since = s.past_due_since }) grace now,
)

abbrev subscription_code : SubscriptionStatus → ℕ
subscription_code trialing = 0
subscription_code active = 1
subscription_code past_due = 2
subscription_code canceled = 3
subscription_code expired = 4

abbrev with_subscription_status : Option SubscriptionStatus → SubscriptionStatus → Bool
with_subscription_status status s =
    when_given status (λ wanted. subscription_code wanted == subscription_code s)

module _ (grace now : ℕ) (status : Option SubscriptionStatus) (db : Db) where
  abbrev pub list_subscriptions : PageQuery → Page (Subscription × Option ℕ × Bool)
  list_subscriptions =
      listing (λ s. s.created_at) (λ s. with_subscription_status status s.status)
        (subscription_row grace now) db.subscriptions

  abbrev pub list_lead_finder_subscriptions :
      PageQuery → Page (LeadFinderSubscription × Option ℕ × Bool)
  list_lead_finder_subscriptions =
      listing (λ s. s.created_at) (λ s. with_subscription_status status s.status)
        (tier_subscription_row grace now) db.lead_finder_subscriptions

-- `orderBy: [{ riskScore: 'desc' }, { createdAt: 'desc' }]`, the sort by the score being stable
abbrev pub list_flagged_sessions : ℕ → Db → PageQuery → Page Session
list_flagged_sessions min_score db q = record {
  data_rows = rows_of_page q (
      sort_latest (λ s. s.risk_score)
        (sort_latest (λ s. s.created_at)
          (filter_where (λ s. leb min_score s.risk_score) db.sessions)));
  page = q.page;
  page_size = q.page_size;
  total = count_where (λ s. leb min_score s.risk_score) db.sessions;
}

-- `ListContactMessagesQueryDto`
pub record ContactQuery : Type 0 where
  pub resolved : Option Bool
  pub reason : Option ℕ

abbrev same_bool : Bool → Bool → Bool
same_bool true b = b
same_bool false b = not b

abbrev pub list_contact_messages : ContactQuery → Db → PageQuery → Page ContactMessage
list_contact_messages f db =
    listing (λ m. m.created_at)
      (λ m.
        when_given f.resolved (λ b. same_bool b m.resolved)
        && when_given f.reason (λ r. r == m.reason))
      (λ m. m) db.contact_messages

-- what `getUser` adds to the row
pub record UserDetails : Type 0 where
  pub user : User
  pub device_count : ℕ
  pub active_session_count : ℕ
  pub subscription : Option Subscription

abbrev user_details : ℕ → ℕ → User → Db → UserDetails
user_details now id u db = record {
  user = u;
  device_count = count_where (λ d. d.user_id == id) db.devices;
  active_session_count = count_where (open_filter id now) db.sessions;
  subscription = find_latest (λ s. s.user_id == id) (λ s. s.created_at) db.subscriptions;
}

unfoldable pub get_user : ℕ → ℕ → Action UserDetails
unfolding find_target
get_user now id = do found ← find_target id; gets (user_details now id found)

unfoldable pub get_user_sessions : ℕ → Action (List Session)
unfolding find_target
get_user_sessions id = do
  found ← find_target id
  gets (λ db. sort_latest (λ s. s.created_at) (filter_where (λ s. s.user_id == id) db.sessions))
