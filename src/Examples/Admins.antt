-- ===== src/Examples/Admins.antt =====
-- The theorems on what administrators do and on the directory, at concrete inputs.
use mathlib.Core.List.{Perm}
use mathlib.Core.List.Perm
use conference_contact.Prelude.{
  ℕ, ◌≤◌, zero, suc, List, map, String, ◌+◌, ◌*◌, ◌≡◌, refl, true, false, none, some, [], ◌∷◌, ◌++◌,
  ltb, length, filter_where, or_else, arith, if◌then◌else◌,
}
use conference_contact.Schema.{Db}
use conference_contact.Schema.Accounts.{User, user, premium, admin, super_admin, suspended}
use conference_contact.Schema.Billing.{paid, credit_pack_purchase}
use conference_contact.Action.{ok, err, unauthorized, forbidden}
use conference_contact.Admin.{
  with_status, suspend_user, reactivate_user, impersonate_user, impersonation_payload,
  InviteUserDto, invite_user,
}
use conference_contact.Admin.Laws.{suspend_shuts, suspend-reactivate, impersonation_confined}
use conference_contact.Admin.Revenue.{collected, get_monthly_revenue, total_cents, sum_by}
use conference_contact.Admin.Revenue.Laws.{monthly_revenue_conserved}
use conference_contact.Auth.Login.{login}
use conference_contact.Auth.Refresh.Laws.{AllRevoked}
use conference_contact.Auth.Register.{RegisterDto, register}
use conference_contact.Auth.Register.Laws.{invite-register}
use conference_contact.Directory.{
  Collation, LeadFilters, any_type, LeadDto, build_where, matching, list, count_leads, exported,
  new_lead, submit_self, approve_lead,
}
use conference_contact.Schema.Admin.{Lead}
use conference_contact.Campaign.Text.{js_length}
use conference_contact.Directory.Order.{IsOrdered, All-IsBelow}
use conference_contact.Directory.Laws.{directory_pages, submission_moderated}
use conference_contact.Guards.{find_user, roles_guard, access}
use conference_contact.Pages.{pages}
use conference_contact.Revocation.{is_revoked}
use conference_contact.Users.{find_by_email}
use conference_contact.Examples.{ada, empty_db, auth_env, session}

abbrev signed_in : Db
signed_in = record empty_db { sessions = session ∷ [] }

suspend_shuts_example :
    let (result, db') = suspend_user auth_env 2 1 signed_in in
    (result ≡ ok tt)
    × (find_user 1 db' ≡ some (with_status suspended ada))
    × AllRevoked 1 db'.sessions
    × (is_revoked true 1 5000 db' ≡ ltb 5000 (1000 + 900 * 1000))
    × (login auth_env "ada@example.com" 7 90 db' ≡ (err unauthorized, db'))
suspend_shuts_example =
    suspend_shuts auth_env 2 1 5000 auth_env 7 90 signed_in {u = ada} refl refl refl refl refl

suspend-reactivate_example :
    let db' = (suspend_user auth_env 2 1 signed_in).1 in
    let (result, db'') = reactivate_user auth_env 2 1 db' in
    (result ≡ ok tt)
    × (find_user 1 db'' ≡ some ada)
    × (find_user 3 db'' ≡ find_user 3 signed_in)
    × (is_revoked true 1 5000 db'' ≡ ltb 5000 (1000 + 900 * 1000))
suspend-reactivate_example =
    suspend-reactivate auth_env auth_env 2 2 1 3 5000 signed_in {u = ada} refl refl refl refl refl

impersonation_confined_example :
    ((impersonate_user 2 1 empty_db).0
      ≡ ok (
        record { sub = 1; role = user; type = access; impersonated_by = some 2 },
        "ada@example.com",
      ))
    × (roles_guard (admin ∷ super_admin ∷ []) (some (impersonation_payload ada 2)) ≡ err forbidden)
impersonation_confined_example = impersonation_confined 2 1 empty_db {u = ada} refl refl refl

abbrev invitation_for_bob : InviteUserDto
invitation_for_bob = record {
  email = "bob@example.com";
  role = some premium;
  grant_directory_access = none;
  grant_lead_finder_access = some true;
}

abbrev bob_joins : RegisterDto
bob_joins = record { email = "bob@example.com"; full_name = "Bob"; password_hash = 8 }

invite-register_example :
    let (sent, db') = invite_user auth_env 2 invitation_for_bob empty_db in
    let (joined, db'') = register auth_env bob_joins db' in
    (u : User) × (sent ≡ ok tt)
    × (joined ≡ ok tt)
    × (find_by_email "bob@example.com" db'' ≡ some u)
    × (u.role ≡ premium)
    × (u.admin_granted_directory_access ≡ true)
    × (u.admin_granted_lead_finder_access ≡ true)
invite-register_example =
    invite-register auth_env auth_env 2 invitation_for_bob "Bob" 8 empty_db refl

-- Names by their length; every query but the first swaps its first two rows.
abbrev turned : ℕ → List Lead → List Lead
turned zero rows = rows
turned (suc query) (x ∷ y ∷ rows) = y ∷ x ∷ rows
turned (suc query) (x ∷ []) = x ∷ []
turned (suc query) [] = []

abbrev plain_text : Collation
plain_text = record { rank = js_length; by_name = turned; contains = λ value text. true }

abbrev everything : LeadFilters
everything = record {
  company_type = any_type;
  likely_to_attend = none;
  has_email = false;
  search = none;
}

abbrev bob_dto : LeadDto
bob_dto = record {
  name = "Bob";
  title = none;
  company = none;
  website = none;
  linkedin = none;
  app_link = none;
  email = some "bob@example.com";
  phone = none;
  company_type = none;
  likely_to_attend = "Expo";
}

abbrev two_leads : Db
two_leads = record empty_db {
  leads = new_lead 0 1 true none bob_dto ∷ new_lead 0 2 true none bob_dto ∷ [];
}

-- Two leads of the same name, and one after them.
abbrev lead_of : ℕ → String → Lead
lead_of id name = record (new_lead 0 id true none bob_dto) { name = name }

abbrev three_leads : Db
three_leads = record empty_db { leads = lead_of 1 "Bob" ∷ lead_of 2 "Bob" ∷ lead_of 3 "Grace" ∷ [] }

bob_is_shorter : js_length "Bob" ≤ js_length "Grace"
unfolding js_length
bob_is_shorter = omega arith

bobs_tie : js_length "Bob" ≤ js_length "Bob"
bobs_tie = omega arith

abbrev grace_lead : Lead
grace_lead = lead_of 3 "Grace"

bobs_in_order :
    (i j : ℕ)
    → IsOrdered (λ l. js_length l.name) (lead_of i "Bob" ∷ lead_of j "Bob" ∷ grace_lead ∷ [])
bobs_in_order i j = (
  All-IsBelow _ (lead_of i "Bob") (lead_of j "Bob" ∷ grace_lead ∷ [])
      (bobs_tie, (bob_is_shorter, tt)),
  (
    All-IsBelow _ (lead_of j "Bob") (grace_lead ∷ []) (bob_is_shorter, tt),
    (All-IsBelow _ grace_lead [] tt, tt),
  ),
)

names_in_order :
    (query : ℕ)
    → Perm (turned query three_leads.leads) three_leads.leads
      × IsOrdered (λ l. js_length l.name) (turned query three_leads.leads)
names_in_order zero = (Perm.rfl, bobs_in_order 1 2)
names_in_order (suc query) = (Perm.swap _ _ _, bobs_in_order 2 1)

directory_pages_example :
    (map (λ l. js_length l.name) (pages (λ q. list plain_text q.page everything three_leads q) 1 3)
      ≡ map (λ l. js_length l.name) (exported plain_text 0 everything three_leads))
    × (length (exported plain_text 0 everything three_leads)
        ≡ count_leads plain_text everything three_leads)
directory_pages_example =
    directory_pages plain_text everything three_leads (λ l. js_length l.name) (λ page. page) 0 1 3
      names_in_order (λ x y m k e. e) (omega arith)

submission_moderated_example :
    let db' = (submit_self 1000 9 1 bob_dto two_leads).1 in
    let (result, db'') = approve_lead 2 9 db' in
    let lead = new_lead 1000 9 true (some 1) bob_dto in
    (matching plain_text everything db' ≡ matching plain_text everything two_leads)
    × (result ≡ ok lead)
    × (matching plain_text everything db''
        ≡ matching plain_text everything two_leads
          ++ (if build_where plain_text everything lead then lead ∷ [] else []))
submission_moderated_example =
    submission_moderated plain_text 1000 9 1 bob_dto two_leads 2 everything refl

abbrev earned : Db
earned = record empty_db {
  invoices =
      record {
        id = 1;
        subscription_id = 1;
        stripe_invoice_id = 5;
        amount_cents = 5000;
        currency = "usd";
        status = paid;
        pdf_url = none;
        paid_at = some 40;
      }
      ∷ [];
  credit_grants =
      record {
        id = 1;
        user_id = 1;
        credits = 50;
        source = credit_pack_purchase;
        amount_paid_cents = some 4900;
        stripe_reference = some 80;
        created_at = 7;
      }
      ∷ [];
}

monthly_revenue_conserved_example :
    sum_by total_cents (get_monthly_revenue (λ t. t) earned)
    ≡ sum_by (λ i. i.amount_cents) (filter_where collected earned.invoices)
      + sum_by (λ g. or_else g.amount_paid_cents 0) earned.credit_grants
monthly_revenue_conserved_example = monthly_revenue_conserved (λ t. t) earned
