-- ===== src/Admin/Laws.antt =====
-- What an administrator's actions on an account achieve.
use conference_contact.Prelude.{
  ℕ, ap, ◌∙◌, String, true, false, not, ◌&&◌, ◌||◌, ==_iff, some, List, ◌==◌, ◌≡◌, refl, ◌+◌, ◌*◌,
  ltb, is_some, find_first, filter_where, ◌++◌, update_where, Option-cases, Bool-cases, inl, inr,
  arith, if◌then◌else◌, [], ◌∷◌,
}
use text.Mathlib.Text.{◌==◌ as str_eq}
use conference_contact.Prelude.Rows.Updates.{find_first-update_where, find_first_matches}
use conference_contact.Schema.{Db, audit}
use conference_contact.Schema.Accounts.{
  User, Role, user, premium, admin, super_admin, AccountStatus, active, suspended, deleted,
  is_admin, is_active_account,
}
use conference_contact.Action.{ok, err, unauthorized, forbidden, ◌>>=◌}
use conference_contact.AuthEnv.{AuthEnv}
use conference_contact.Admin.{
  with_status, find_target, revoke_tokens, suspend_user, reactivate_user, impersonate_user,
  impersonation_payload,
}
use conference_contact.Auth.Login.{login}
use conference_contact.Auth.Refresh.Laws.{AllRevoked, AllRevoked-revoke}
use conference_contact.Guards.{find_user, role_eq, roles_guard, access}
use conference_contact.Revocation.{revoke_user, is_revoked}
use conference_contact.Revocation.Laws.{revoke_user-is_revoked}
use conference_contact.Sessions.{revoke_all_for_user, revoked_now}
use conference_contact.Users.{find_by_email, is_locked, update_user, users_updated}

-- A row found by its id or its address before an update of its status is found after it.
marked_by_id :
    (id : ℕ) (f : User → User) (users : List User) {u : User}
    → ((r : User) → (f r).id ≡ r.id)
    → find_first (λ r. r.id == id) users ≡ some u
    → find_first (λ r. r.id == id) (update_where (λ r. r.id == id) f users) ≡ some (f u)
marked_by_id id f users {u} same found =
    let moved =
      find_first-update_where (λ r. r.id == id) (λ r. r.id == id) f
        (λ r. ap (λ i. i == id) (same r)) users in
    rw (moved, found) (ground (arith, find_first_matches (λ (r : User). r.id == id) users found))

marked_by_email :
    (email : String) (id : ℕ) (status : AccountStatus) (users : List User) {u : User}
    → find_first (λ r. str_eq r.email email) users ≡ some u
    → (u.id == id) ≡ true
    → find_first
        (λ r. str_eq r.email email)
        (update_where (λ r. r.id == id) (with_status status) users)
      ≡ some (with_status status u)
marked_by_email email id status users {u} found own =
    let moved =
      find_first-update_where (λ r. str_eq r.email email) (λ r. r.id == id) (with_status status)
        (λ r. refl) users in
    rw (moved, found, own) refl

others_by_id :
    (id another : ℕ) (f : User → User) (users : List User)
    → ((r : User) → (f r).id ≡ r.id)
    → (another == id) ≡ false
    → find_first (λ r. r.id == another) (update_where (λ r. r.id == id) f users)
      ≡ find_first (λ r. r.id == another) users
others_by_id id another f users same apart =
    let moved =
      find_first-update_where (λ r. r.id == another) (λ r. r.id == id) f
        (λ r. ap (λ i. i == another) (same r)) users in
    elim (Option-cases (find_first (λ r. r.id == another) users)) [
      | inl e ↦ rw (moved, e) refl
      | inr (r, e) ↦
          (let own = find_first_matches (λ (r : User). r.id == another) users e in
            let not_own : (r.id == id) ≡ false = ground (arith, own, apart) in
            rw (moved, e, not_own) refl)
    ]

is_active_account-path : (s : AccountStatus) → is_active_account s ≡ true → active ≡ s
is_active_account-path active h = refl
is_active_account-path suspended h = cc
is_active_account-path deleted h = cc

-- A suspended account does not log in, whatever the password, and the attempt changes nothing.
login_suspended :
    (env : AuthEnv) (email : String) (password fingerprint : ℕ) (db : Db) (u : User)
    → find_by_email email db ≡ some (with_status suspended u)
    → login env email password fingerprint db ≡ (err unauthorized, db)
unfolding login ◌>>=◌
login_suspended env email password fingerprint db u found =
    elim (Bool-cases (is_locked u.locked_until env.now)) [
      | inl locked ↦ rw (found, locked) refl
      | inr unlocked ↦ rw (found, unlocked) refl
    ]

-- The database after the tokens of a user are revoked, with Redis up.
abbrev tokens_revoked : AuthEnv → ℕ → Db → Db
tokens_revoked env id db = record db {
  sessions =
      update_where (λ s. s.user_id == id && not (is_some s.revoked_at)) (revoked_now env.now)
        db.sessions;
  revocations =
      (id, env.now + env.access_token_ttl_seconds * 1000)
      ∷ filter_where (λ e. not (e.0 == id)) db.revocations;
}

abbrev suspension : AuthEnv → ℕ → ℕ → Db → Db
suspension env by target db =
    let db' = tokens_revoked env target (users_updated target (with_status suspended) db) in
    record db' { effects = db.effects ++ audit (some by) "admin.user_suspended" (some target) ∷ [] }

module _ (env : AuthEnv) (by target : ℕ) (db : Db) {u : User} (other : (by == target) ≡ false)
    (found : find_user target db ≡ some u) (live : is_active_account u.status ≡ true)
    (up : env.redis_up ≡ true) where
  suspend_user_lem : suspend_user env by target db ≡ (ok tt, suspension env by target db)
  unfolding suspend_user find_target revoke_tokens update_user revoke_all_for_user revoke_user ◌>>=◌
  suspend_user_lem = rw (other, found, live, found, up) refl

-- An administrator suspends the active account of another user, with Redis up: the row is
-- suspended, every session of the user is revoked, the access tokens that are out are refused for
-- their whole lifetime, and a login is refused and changes nothing, whatever the password.
pub suspend_shuts :
    (env : AuthEnv) (by target later : ℕ) (login_env : AuthEnv) (password fingerprint : ℕ) (db : Db)
    {u : User}
    → (by == target) ≡ false
    → find_user target db ≡ some u
    → find_by_email u.email db ≡ some u
    → is_active_account u.status ≡ true
    → env.redis_up ≡ true
    → let (result, db') = suspend_user env by target db in
      (result ≡ ok tt)
      × (find_user target db' ≡ some (with_status suspended u))
      × AllRevoked target db'.sessions
      × (is_revoked true target later db'
          ≡ ltb later (env.now + env.access_token_ttl_seconds * 1000))
      × (login login_env u.email password fingerprint db' ≡ (err unauthorized, db'))
unfolding revoke_user is_revoked
suspend_shuts env by target later login_env password fingerprint db {u} other found by_email live
      up =
    let own = find_first_matches (λ (r : User). r.id == target) db.users found in
    let marked = marked_by_id target (with_status suspended) db.users (λ r. refl) found in
    let marked' = marked_by_email u.email target suspended db.users by_email own in
    rw (suspend_user_lem env by target db other found live up) (
      refl,
      marked,
      AllRevoked-revoke target env.now db.sessions,
      revoke_user-is_revoked env.access_token_ttl_seconds target env.now later db,
      login_suspended login_env u.email password fingerprint (suspension env by target db) u
          marked',
    )

-- The access of a user is as before a suspension once the account is active again: the row is the
-- same, and so are the rows of the other users. The access tokens of the user, also those of a
-- login after the reactivation, are refused until the revocation of the suspension has expired.
pub suspend-reactivate :
    (env env' : AuthEnv) (by again target another later : ℕ) (db : Db) {u : User}
    → (by == target) ≡ false
    → find_user target db ≡ some u
    → is_active_account u.status ≡ true
    → env.redis_up ≡ true
    → (another == target) ≡ false
    → let db' = (suspend_user env by target db).1 in
      let (result, db'') = reactivate_user env' again target db' in
      (result ≡ ok tt)
      × (find_user target db'' ≡ some u)
      × (find_user another db'' ≡ find_user another db)
      × (is_revoked true target later db''
          ≡ ltb later (env.now + env.access_token_ttl_seconds * 1000))
unfolding reactivate_user find_target update_user revoke_user is_revoked ◌>>=◌
suspend-reactivate env env' by again target another later db {u} other found live up apart =
    let marked = marked_by_id target (with_status suspended) db.users (λ r. refl) found in
    let users = update_where (λ r. r.id == target) (with_status suspended) db.users in
    let back = marked_by_id target (with_status active) users (λ r. refl) marked in
    rw (suspend_user_lem env by target db other found live up, marked, marked)
      (
        refl,
        back ∙ ap (λ s. some (with_status s u)) (is_active_account-path u.status live),
        others_by_id target another (with_status active) users (λ r. refl) apart
            ∙ others_by_id target another (with_status suspended) db.users (λ r. refl) apart,
        revoke_user-is_revoked env.access_token_ttl_seconds target env.now later db,
      )

role_eq_lem : (r : Role) → (role_eq admin r || (role_eq super_admin r || false)) ≡ is_admin r
role_eq_lem user = refl
role_eq_lem premium = refl
role_eq_lem admin = refl
role_eq_lem super_admin = refl

-- Of an active account of another user, an impersonation gives a token with that user's id and the
-- administrator's in it exactly when the routes for administrators would refuse that token.
pub impersonation_confined :
    (by target : ℕ) (db : Db) {u : User}
    → (by == target) ≡ false
    → find_user target db ≡ some u
    → is_active_account u.status ≡ true
    → ((impersonate_user by target db).0 ≡ (
        if is_admin u.role
        then err forbidden
        else ok (
          record { sub = target; role = u.role; type = access; impersonated_by = some by },
          u.email,
        )))
      × (roles_guard (admin ∷ super_admin ∷ []) (some (impersonation_payload u by))
          ≡ (if is_admin u.role then ok true else err forbidden))
unfolding impersonate_user find_target roles_guard ◌>>=◌
impersonation_confined by target db {u} other found live =
    let own =
      (==_iff u.id target).0 (find_first_matches (λ (r : User). r.id == target) db.users found) in
    elim (Bool-cases (is_admin u.role)) [
      | inl staff ↦ rw (other, found, staff, role_eq_lem u.role, staff) (refl, refl)
      | inr plain ↦ rw (other, found, plain, live, role_eq_lem u.role, plain, own) (refl, refl)
    ]
