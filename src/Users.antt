-- ===== src/Users.antt =====
-- src/users/users.service.ts. An email is one that `normalizeEmail` has returned.
use conference_contact.Prelude.{
  ℕ, ◌+◌, ◌*◌, String, Bool, true, false, Option, none, some, ◌==◌, ltb, leb, find_first,
  update_where, if◌then◌else◌,
}
use text.Mathlib.Text.{◌==◌ as str_eq}
use conference_contact.Schema.{Db}
use conference_contact.Schema.Accounts.{User}
use conference_contact.Action.{Action, record_not_found, pure, gets, or_raise, modify, ◌>>=◌, ◌>>◌}
use conference_contact.AuthEnv.{AuthEnv}
use conference_contact.Guards.{find_user}

abbrev pub find_by_email : String → Db → Option User
find_by_email email db = find_first (λ u. str_eq u.email email) db.users

-- the rows of `user.update({ where: { id } })`
abbrev pub users_updated : ℕ → (User → User) → Db → Db
users_updated id f db = record db { users = update_where (λ u. u.id == id) f db.users }

-- `user.update` by id, which throws on a missing row and returns the new one
unfoldable pub update_user : ℕ → (User → User) → Action User
update_user id f = do
  u ← or_raise (← gets (find_user id)) record_not_found
  modify (users_updated id f)
  pure (f u)

abbrev pub is_locked : Option ℕ → ℕ → Bool
is_locked none now = false
is_locked (some until) now = ltb now until

-- the fields that a failed login changes
abbrev pub failed_once : User → User
failed_once u = record u { failed_login_count = u.failed_login_count + 1 }

module _ (env : AuthEnv) where
  abbrev pub locked_out : User → User
  locked_out u = record u {
    failed_login_count = 0;
    locked_until = some (env.now + env.lockout_minutes * 60000);
  }

  unfoldable pub register_failed_login : ℕ → Action Bool
  unfolding update_user
  register_failed_login id = do
    user ← update_user id failed_once
    if leb env.max_attempts user.failed_login_count
        then (do update_user id locked_out; pure true)
        else pure false

  unfoldable pub mark_email_verified : ℕ → Action User
  unfolding update_user
  mark_email_verified id = update_user id (λ u. record u { email_verified_at = some env.now })

  unfoldable pub update_last_login : ℕ → Action User
  unfolding update_user
  update_last_login id = update_user id (λ u. record u { last_login_at = some env.now })

abbrev pub cleared : User → User
cleared u = record u { failed_login_count = 0; locked_until = none }

unfoldable pub reset_failed_logins : ℕ → Action User
unfolding update_user
reset_failed_logins id = update_user id cleared

unfoldable pub update_password_hash : ℕ → ℕ → Action User
unfolding update_user
update_password_hash id password_hash =
    update_user id (λ u. record u { password_hash = password_hash })

unfoldable pub set_two_factor_secret : ℕ → ℕ → Action User
unfolding update_user
set_two_factor_secret id secret = update_user id (λ u. record u { two_factor_secret = some secret })

unfoldable pub enable_two_factor : ℕ → Action User
unfolding update_user
enable_two_factor id = update_user id (λ u. record u { two_factor_enabled = true })

unfoldable pub disable_two_factor : ℕ → Action User
unfolding update_user
disable_two_factor id =
    update_user id (λ u. record u { two_factor_enabled = false; two_factor_secret = none })
