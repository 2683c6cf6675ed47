-- ===== src/Auth/Login/Laws.antt =====
-- The lockout of an account after failed logins.
use conference_contact.Prelude.{
  ℕ, zero, suc, ◌+◌, ◌*◌, ◌<◌, String, true, false, some, ◌==◌, leb, ◌≡◌, refl, arith,
}
use text.Mathlib.Text.{◌==◌ as str_eq}
use conference_contact.Prelude.Rows.Updates.{find_first-update_where}
use conference_contact.Schema.{Db}
use conference_contact.Schema.Accounts.{User, is_active_account}
use conference_contact.Action.{err, unauthorized, ◌>>=◌}
use conference_contact.AuthEnv.{AuthEnv}
use conference_contact.Auth.Login.{login}
use conference_contact.Guards.{find_user}
use conference_contact.Users.{
  find_by_email, users_updated, is_locked, failed_once, locked_out, update_user,
  register_failed_login,
}

-- A login of a locked account is refused, whatever the password, and changes nothing.
locked_login :
    (env : AuthEnv) (email : String) (password fingerprint : ℕ) (db : Db) {u : User}
    → find_by_email email db ≡ some u
    → is_locked u.locked_until env.now ≡ true
    → login env email password fingerprint db ≡ (err unauthorized, db)
unfolding login ◌>>=◌
locked_login env email password fingerprint db found locked = rw (found, locked) refl

module _ (env : AuthEnv) (email : String) (password fingerprint : ℕ) where
  -- The state after a number of logins, one after the other.
  abbrev pub attempts : ℕ → Db → Db
  attempts zero db = db
  attempts (suc n) db = attempts n (login env email password fingerprint db).1

  by_email :
      (f : User → User) (db : Db) {u : User}
      → ((r : User) → str_eq (f r).email email ≡ str_eq r.email email)
      → find_by_email email db ≡ some u
      → find_by_email email (users_updated u.id f db) ≡ some (f u)
  by_email f db {u} same found =
      rw
        (
          find_first-update_where (λ r. str_eq r.email email) (λ r. r.id == u.id) f same db.users,
          found,
        )
        (ground arith)

  by_id :
      (f : User → User) (db : Db) {u : User}
      → ((r : User) → ((f r).id == u.id) ≡ (r.id == u.id))
      → find_user u.id db ≡ some u
      → find_user u.id (users_updated u.id f db) ≡ some (f u)
  by_id f db {u} same found =
      rw (find_first-update_where (λ r. r.id == u.id) (λ r. r.id == u.id) f same db.users, found)
        (ground arith)

  module _ (db : Db) {u : User} (found : find_by_email email db ≡ some u)
      (same : find_user u.id db ≡ some u) (open_account : is_locked u.locked_until env.now ≡ false)
      (active : is_active_account u.status ≡ true)
      (wrong : env.password_matches u.password_hash password ≡ false) where
    -- A wrong password below the threshold counts.
    wrong_login_counts :
        leb env.max_attempts (u.failed_login_count + 1) ≡ false
        → let db' = (login env email password fingerprint db).1 in
          (find_by_email email db' ≡ some (failed_once u))
          × (find_user u.id db' ≡ some (failed_once u))
    unfolding login ◌>>=◌ register_failed_login update_user
    wrong_login_counts below =
        rw (found, open_account, active, wrong, same, below)
          (by_email failed_once db (λ r. refl) found, by_id failed_once db (λ r. refl) same)

    -- A wrong password at the threshold locks.
    wrong_login_locks :
        leb env.max_attempts (u.failed_login_count + 1) ≡ true
        → find_by_email email (login env email password fingerprint db).1
          ≡ some (locked_out env (failed_once u))
    unfolding login ◌>>=◌ register_failed_login update_user
    wrong_login_locks reached =
        rw
          (found, open_account, active, wrong, same, reached, by_id failed_once db (λ r. refl) same)
          (by_email (locked_out env) (users_updated u.id failed_once db) (λ r. refl)
            (by_email failed_once db (λ r. refl) found))

  -- As many wrong passwords as are left to the threshold lock the account.
  attempts_lock :
      (k : ℕ) (db : Db) {u : User}
      → find_by_email email db ≡ some u
      → find_user u.id db ≡ some u
      → is_locked u.locked_until env.now ≡ false
      → is_active_account u.status ≡ true
      → env.password_matches u.password_hash password ≡ false
      → u.failed_login_count + suc k ≡ env.max_attempts
      → (v : User) × (find_by_email email (attempts (suc k) db) ≡ some v)
        × (v.locked_until ≡ some (env.now + env.lockout_minutes * 60000))
  attempts_lock zero db {u} found same open_account active wrong n = (
    locked_out env (failed_once u),
    wrong_login_locks db found same open_account active wrong (ground arith),
    refl,
  )
  attempts_lock (suc k) db {u} found same open_account active wrong n =
      let (found', same') =
        wrong_login_counts db found same open_account active wrong (ground arith) in
      attempts_lock k (login env email password fingerprint db).1 found' same' open_account active
        wrong (omega (arith, n))

-- Once the wrong passwords that an open, active account has left are used up, a login with any
-- password, the right one included, is refused and changes nothing until the lockout is over.
pub lockout :
    (env : AuthEnv) (email : String) (wrong_password fingerprint left : ℕ) (db : Db)
    (later password device : ℕ) {u : User}
    → find_by_email email db ≡ some u
    → find_user u.id db ≡ some u
    → is_locked u.locked_until env.now ≡ false
    → is_active_account u.status ≡ true
    → env.password_matches u.password_hash wrong_password ≡ false
    → u.failed_login_count + suc left ≡ env.max_attempts
    → later < env.now + env.lockout_minutes * 60000
    → let db' = attempts env email wrong_password fingerprint (suc left) db in
      login (record env { now = later }) email password device db' ≡ (err unauthorized, db')
lockout env email wrong_password fingerprint left db later password device found same open_account
      active wrong n soon =
    let (v, found', until) =
      attempts_lock env email wrong_password fingerprint left db found same open_account active
        wrong n in
    locked_login (record env { now = later }) email password device
      (attempts env email wrong_password fingerprint (suc left) db) found' (rw until (ground arith))
