-- ===== src/Auth/Register.antt =====
-- `register` of src/auth/auth.service.ts. The email is normalized, and the password given by its
-- hash. The IP address of the request and the phone are left out.
pub mod Laws
use conference_contact.Prelude.{
  ℕ, String, Bool, true, false, not, ◌&&◌, Option, none, some, List, [], ◌∷◌, ◌++◌, ◌==◌,
  find_first, update_where, is_some,
}
use text.Mathlib.Text.{◌==◌ as str_eq}
use conference_contact.Schema.{Db, audit}
use conference_contact.Schema.Accounts.{User, user, active}
use conference_contact.Schema.Admin.{
  AdminAccessInvite, Invite, InviteStatus, pending, accepted, ConsentRecord, terms, privacy,
}
use conference_contact.Action.{Action, conflict, raise_if, gets, modify, emit, ◌>>=◌, ◌>>◌}
use conference_contact.Admin.{is_pending_invite, pending_for}
use conference_contact.AuthEnv.{AuthEnv}
use conference_contact.Users.{find_by_email}

-- `RegisterDto`
pub record RegisterDto : Type 0 where
  pub email : String
  pub full_name : String
  pub password_hash : ℕ

module _ (env : AuthEnv) where
  -- a row with the defaults of prisma/schema.prisma
  abbrev plain_user : RegisterDto → User
  plain_user dto = record {
    id = env.fresh;
    email = dto.email;
    full_name = dto.full_name;
    password_hash = dto.password_hash;
    role = user;
    status = active;
    admin_granted_directory_access = false;
    admin_granted_lead_finder_access = false;
    stripe_customer_id = none;
    email_verified_at = none;
    two_factor_enabled = false;
    two_factor_secret = none;
    failed_login_count = 0;
    locked_until = none;
    last_login_at = none;
    deleted_at = none;
    lead_finder_credits = 100;
    created_at = env.now;
  }

  -- `...(accessInvite && { … })`
  abbrev pub new_user : RegisterDto → Option AdminAccessInvite → User
  new_user dto none = plain_user dto
  new_user dto (some i) = record (plain_user dto) {
    role = i.role;
    admin_granted_directory_access = i.grant_directory_access;
    admin_granted_lead_finder_access = i.grant_lead_finder_access;
  }

  abbrev pub accept_access : AdminAccessInvite → AdminAccessInvite
  accept_access i = record i { status = accepted; accepted_at = some env.now }

  abbrev accept_first : Option AdminAccessInvite → List AdminAccessInvite → List AdminAccessInvite
  accept_first none rows = rows
  accept_first (some i) rows = update_where (λ r. r.id == i.id) accept_access rows

  abbrev accept_invite : Invite → Invite
  accept_invite i = record i { status = accepted; accepted_at = some env.now }

  -- the transaction
  abbrev pub registered : RegisterDto → Option AdminAccessInvite → Db → Db
  registered dto invite db = record db {
    users = db.users ++ new_user dto invite ∷ [];
    access_invites = accept_first invite db.access_invites;
    consents =
        db.consents
        ++ record { user_id = env.fresh; document_type = terms; accepted_at = env.now }
          ∷ record { user_id = env.fresh; document_type = privacy; accepted_at = env.now }
          ∷ [];
    invites =
        update_where (λ i. str_eq i.email dto.email && is_pending_invite i.status) accept_invite
          db.invites;
  }

  unfoldable pub register : RegisterDto → Action (Unit {0})
  register dto = do
    existing ← gets (find_by_email dto.email)
    raise_if (is_some existing) conflict
    invite ← gets (λ db. find_first (pending_for dto.email) db.access_invites)
    modify (registered dto invite)
    emit (audit (some env.fresh) "auth.register" none)
