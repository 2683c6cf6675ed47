-- ===== src/Admin.antt =====
-- What an administrator does to an account, of src/admin/admin.service.ts. An email is one that
-- `trim().toLowerCase()` has returned.
pub mod Laws
pub mod Revenue
pub mod Listings
pub mod Contact
use conference_contact.Prelude.{
  ℕ, String, Bool, true, false, not, ◌&&◌, Option, none, some, List, [], ◌∷◌, ◌++◌, ◌==◌,
  find_first, update_where, is_some, or_else, if◌then◌else◌,
}
use Prim.Native.String.{◌++◌ as str_append}
use text.Mathlib.Text.{◌==◌ as str_eq}
use conference_contact.Prelude.Sets.{has}
use conference_contact.Schema.{Db, mail, audit}
use conference_contact.Schema.Accounts.{
  User, Role, user, AccountStatus, active, suspended, deleted, is_admin, is_active_account,
}
use conference_contact.Schema.Admin.{AdminAccessInvite, InviteStatus, pending}
use conference_contact.Action.{
  Action, not_found, forbidden, bad_request, pure, raise_if, gets, or_raise, skip, modify, emit,
  ◌>>=◌, ◌>>◌,
}
use conference_contact.AuthEnv.{AuthEnv}
use conference_contact.Auth.Erasure.{erased}
use conference_contact.Auth.Recovery.{forgot_password}
use conference_contact.Guards.{find_user, TokenPayload, access}
use conference_contact.Revocation.{revoke_user}
use conference_contact.Sessions.{revoke_all_for_user}
use conference_contact.Users.{find_by_email, update_user}

abbrev pub is_suspended : AccountStatus → Bool
is_suspended suspended = true
is_suspended _ = false

abbrev pub is_deleted : AccountStatus → Bool
is_deleted deleted = true
is_deleted _ = false

abbrev pub with_status : AccountStatus → User → User
with_status status u = record u { status = status }

-- `findUnique`, and the exception when there is no row
unfoldable pub find_target : ℕ → Action User
find_target id = do found ← gets (find_user id); or_raise found not_found

module _ (env : AuthEnv) where
  -- the refresh tokens and the access tokens of a user
  unfoldable pub revoke_tokens : ℕ → Action (Unit {0})
  unfolding revoke_all_for_user revoke_user
  revoke_tokens id = do
    revoke_all_for_user env id
    revoke_user env.redis_up env.access_token_ttl_seconds id env.now

  unfoldable pub suspend_user : ℕ → ℕ → Action (Unit {0})
  unfolding find_target revoke_tokens
  suspend_user admin target = do
    raise_if (admin == target) forbidden
    found ← find_target target
    raise_if (not (is_active_account found.status)) bad_request
    update_user target (with_status suspended)
    revoke_tokens target
    emit (audit (some admin) "admin.user_suspended" (some target))

  unfoldable pub reactivate_user : ℕ → ℕ → Action (Unit {0})
  unfolding find_target
  reactivate_user admin target = do
    found ← find_target target
    raise_if (not (is_suspended found.status)) bad_request
    update_user target (with_status active)
    emit (audit (some admin) "admin.user_reactivated" (some target))

  unfoldable pub send_password_reset : ℕ → ℕ → Action (Unit {0})
  unfolding find_target forgot_password
  send_password_reset admin target = do
    found ← find_target target
    forgot_password env found.email
    emit (audit (some admin) "admin.password_reset_sent" (some target))

  unfoldable pub delete_user : ℕ → ℕ → Action (Unit {0})
  unfolding find_target revoke_tokens
  delete_user admin target = do
    raise_if (admin == target) forbidden
    found ← find_target target
    raise_if (is_deleted found.status) bad_request
    update_user target (erased env.now)
    revoke_tokens target
    emit (audit (some admin) "admin.user_deleted" (some target))

  unfoldable pub force_logout : ℕ → ℕ → Action (Unit {0})
  unfolding find_target revoke_tokens
  force_logout admin target = do
    found ← find_target target
    revoke_tokens target
    emit (audit (some admin) "admin.user_force_logout" (some target))

-- the payload that `signImpersonationToken` signs
abbrev pub impersonation_payload : User → ℕ → TokenPayload
impersonation_payload u admin = record {
  sub = u.id;
  role = u.role;
  type = access;
  impersonated_by = some admin;
}

unfoldable pub impersonate_user : ℕ → ℕ → Action (TokenPayload × String)
unfolding find_target
impersonate_user admin target = do
  raise_if (admin == target) forbidden
  found ← find_target target
  raise_if (is_admin found.role) forbidden
  raise_if (not (is_active_account found.status)) bad_request
  emit (audit (some admin) "admin.user_impersonated" (some target))
  pure (impersonation_payload found admin, found.email)

unfoldable pub set_directory_access : ℕ → ℕ → Bool → Action (Unit {0})
unfolding find_target
set_directory_access admin target granted = do
  found ← find_target target
  update_user target (λ u. record u { admin_granted_directory_access = granted })
  emit (
      audit (some admin)
        (if granted then "admin.directory_access_granted" else "admin.directory_access_revoked")
        (some target))

unfoldable pub set_lead_finder_access : ℕ → ℕ → Bool → Action (Unit {0})
unfolding find_target
set_lead_finder_access admin target granted = do
  found ← find_target target
  update_user target (λ u. record u { admin_granted_lead_finder_access = granted })
  emit (
      audit (some admin)
        (if granted then "admin.lead_finder_access_granted" else "admin.lead_finder_access_revoked")
        (some target))

-- `InviteUserDto`
pub record InviteUserDto : Type 0 where
  pub email : String
  pub role : Option Role
  pub grant_directory_access : Option Bool
  pub grant_lead_finder_access : Option Bool

abbrev pub is_pending_invite : InviteStatus → Bool
is_pending_invite pending = true
is_pending_invite _ = false

-- `where: { email, status: 'PENDING' }`
abbrev pub pending_for : String → AdminAccessInvite → Bool
pending_for email i = str_eq i.email email && is_pending_invite i.status

-- `inviteData`
abbrev pub with_invite_data : ℕ → InviteUserDto → AdminAccessInvite → AdminAccessInvite
with_invite_data admin dto i = record i {
  invited_by_user_id = admin;
  role = or_else dto.role user;
  grant_directory_access = or_else dto.grant_directory_access true;
  grant_lead_finder_access = or_else dto.grant_lead_finder_access false;
}

module _ (env : AuthEnv) where
  abbrev pub new_access_invite : ℕ → InviteUserDto → AdminAccessInvite
  new_access_invite admin dto = record {
    id = env.fresh;
    invited_by_user_id = admin;
    email = dto.email;
    role = or_else dto.role user;
    grant_directory_access = or_else dto.grant_directory_access true;
    grant_lead_finder_access = or_else dto.grant_lead_finder_access false;
    status = pending;
    created_at = env.now;
    accepted_at = none;
  }

  abbrev pub save_invite :
      ℕ → InviteUserDto → Option AdminAccessInvite → List AdminAccessInvite → List AdminAccessInvite
  save_invite admin dto (some p) rows =
      update_where (λ i. i.id == p.id) (with_invite_data admin dto) rows
  save_invite admin dto none rows = rows ++ new_access_invite admin dto ∷ []

  unfoldable pub invite_user : ℕ → InviteUserDto → Action (Unit {0})
  invite_user admin dto = do
    existing ← gets (find_by_email dto.email)
    raise_if (is_some existing) bad_request
    waiting ← gets (λ db. find_first (pending_for dto.email) db.access_invites)
    modify (λ db. record db { access_invites = save_invite admin dto waiting db.access_invites })
    emit (mail "admin-access-invite" dto.email)
    emit (audit (some admin) "admin.user_invited" none)

-- `PitchProspectDto`
pub data PitchTemplate : Type 0 where
  intro value urgency : PitchTemplate

abbrev pitch_job : PitchTemplate → String
pitch_job intro = "prospect-pitch-intro"
pitch_job value = "prospect-pitch-value"
pitch_job urgency = "prospect-pitch-urgency"

unfoldable pub pitch_prospect : ℕ → ℕ → PitchTemplate → Action (Unit {0})
unfolding find_target
pitch_prospect admin target template = do
  found ← find_target target
  emit (mail (pitch_job template) found.email)
  emit (audit (some admin) "admin.prospect_pitched" (some target))

unfoldable pub invite_prospect : ℕ → String → Action (Unit {0})
invite_prospect admin email = do
  existing ← gets (find_by_email email)
  suppressed ← gets (λ db. has db.suppressions email)
  raise_if (is_some existing) bad_request
  raise_if suppressed bad_request
  emit (mail "prospect-cold-invite" email)
  emit (audit (some admin) "admin.prospect_invited" none)
