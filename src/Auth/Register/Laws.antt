-- ===== src/Auth/Register/Laws.antt =====
-- An administrator's invitation, and the registration that it leads to.
use conference_contact.Prelude.{
  ℕ, String, true, false, none, some, List, ◌==◌, ◌≡◌, refl, find_first, or_else, Option-cases, inl,
  inr, arith,
}
use text.Mathlib.Text.{◌==◌ as str_eq}
use text.Mathlib.TextPositions.{eq_refl}
use conference_contact.Prelude.Rows.Updates.{find_first-update_where, find_first-append}
use conference_contact.Schema.{Db}
use conference_contact.Schema.Accounts.{User, user}
use conference_contact.Schema.Admin.{AdminAccessInvite}
use conference_contact.Action.{ok, ◌>>=◌}
use conference_contact.Admin.{
  InviteUserDto, pending_for, with_invite_data, new_access_invite, save_invite, invite_user,
}
use conference_contact.Auth.Register.{RegisterDto, new_user, register}
use conference_contact.AuthEnv.{AuthEnv}
use conference_contact.Users.{find_by_email}

-- The pending invitation that a registration finds holds what the last invitation said.
saved_invite :
    (env : AuthEnv) (admin : ℕ) (dto : InviteUserDto) (rows : List AdminAccessInvite)
    → (i : AdminAccessInvite) × (find_first
          (pending_for dto.email)
          (save_invite env admin dto (find_first (pending_for dto.email) rows) rows)
        ≡ some i)
      × (i.role ≡ or_else dto.role user)
      × (i.grant_directory_access ≡ or_else dto.grant_directory_access true)
      × (i.grant_lead_finder_access ≡ or_else dto.grant_lead_finder_access false)
saved_invite env admin dto rows = elim (Option-cases (find_first (pending_for dto.email) rows)) [
  | inl e ↦
      (let new = new_access_invite env admin dto in
        let last = find_first-append (pending_for dto.email) rows new e in
        (new, rw (e, last, eq_refl dto.email) refl, refl, refl, refl))
  | inr (p, e) ↦
      (let moved =
          find_first-update_where (pending_for dto.email) (λ i. i.id == p.id)
            (with_invite_data admin dto) (λ i. refl) rows in
        let own : (p.id == p.id) ≡ true = ground arith in
        (with_invite_data admin dto p, rw (e, moved, e, own) refl, refl, refl, refl))
]

-- Of an address without an account, an invitation by an administrator and then the registration
-- both return, and the account that the registration makes has the role and the grants of the
-- invitation, also when the address was invited before with others.
pub invite-register :
    (env env' : AuthEnv) (admin : ℕ) (invite : InviteUserDto) (full_name : String)
    (password_hash : ℕ) (db : Db)
    → find_by_email invite.email db ≡ none
    → let (sent, db') = invite_user env admin invite db in
      let dto : RegisterDto = record {
        email = invite.email;
        full_name = full_name;
        password_hash = password_hash;
      } in
      let (joined, db'') = register env' dto db' in
      (u : User) × (sent ≡ ok tt)
      × (joined ≡ ok tt)
      × (find_by_email invite.email db'' ≡ some u)
      × (u.role ≡ or_else invite.role user)
      × (u.admin_granted_directory_access ≡ or_else invite.grant_directory_access true)
      × (u.admin_granted_lead_finder_access ≡ or_else invite.grant_lead_finder_access false)
unfolding invite_user register ◌>>=◌
invite-register env env' admin invite full_name password_hash db new =
    let (i, found, role, directory, finder) = saved_invite env admin invite db.access_invites in
    let dto : RegisterDto = record {
      email = invite.email;
      full_name = full_name;
      password_hash = password_hash;
    } in
    let u = new_user env' dto (some i) in
    let joined = find_first-append (λ r. str_eq r.email invite.email) db.users u new in
    (
      u,
      rw new refl,
      rw (new, new) refl,
      rw (new, new, found) (rw (joined, eq_refl invite.email) refl),
      role,
      directory,
      finder,
    )
