-- ===== src/Auth/Recovery/Laws.antt =====
-- A link of a password reset works once, and only the newest one works.
use conference_contact.Prelude.{
  ℕ, String, true, false, Option, some, ◌==◌, ltb, ◌≡◌, refl, is_some, find_first, update_where,
  Bool-cases, inl, inr, arith,
}
use conference_contact.Prelude.Rows.Updates.{
  find_first-update_where, find_first-append_found, updated,
}
use conference_contact.Schema.{Db}
use conference_contact.Schema.Accounts.{User, VerificationToken, password_reset}
use conference_contact.Action.{ok, err, bad_request, ◌>>=◌}
use conference_contact.AuthEnv.{AuthEnv}
use conference_contact.Auth.Recovery.{
  purpose_eq, unused_filter, used_now, issue_verification_token, forgot_password, reset_password,
}
use conference_contact.Guards.{find_user}
use conference_contact.Revocation.{revoke_user}
use conference_contact.Sessions.{revoke_all_for_user}
use conference_contact.Users.{find_by_email, update_password_hash, update_user}

-- the link of a raw token
abbrev pub find_link : AuthEnv → ℕ → Db → Option VerificationToken
find_link env raw_token db =
    find_first (λ t. t.token_hash == env.hash raw_token) db.verification_tokens

-- A reset by a link that was used is refused, and changes nothing.
used_link_refused :
    (env : AuthEnv) (raw_token password_hash : ℕ) (db : Db) {t : VerificationToken}
    → find_link env raw_token db ≡ some t
    → is_some t.used_at ≡ true
    → reset_password env raw_token password_hash db ≡ (err bad_request, db)
unfolding reset_password ◌>>=◌
used_link_refused env raw_token password_hash db {t} found used =
    elim (Bool-cases (purpose_eq t.purpose password_reset)) [
      | inl same ↦ rw (found, same, used) refl
      | inr other ↦ rw (found, other) refl
    ]

-- The links after one of them is used.
link_used :
    (env : AuthEnv) (raw_token : ℕ) (db : Db) {t : VerificationToken}
    → find_link env raw_token db ≡ some t
    → find_first
        (λ r. r.token_hash == env.hash raw_token)
        (update_where (λ r. r.id == t.id) (used_now env) db.verification_tokens)
      ≡ some (used_now env t)
link_used env raw_token db {t} found =
    rw
      (
        find_first-update_where (λ r. r.token_hash == env.hash raw_token) (λ r. r.id == t.id)
            (used_now env) (λ r. refl) db.verification_tokens,
        found,
      )
      (ground arith)

-- A reset by a fresh link returns, and leaves the link used.
reset_password_uses :
    (env : AuthEnv) (raw_token password_hash : ℕ) (db : Db) {t : VerificationToken} {u : User}
    → find_link env raw_token db ≡ some t
    → purpose_eq t.purpose password_reset ≡ true
    → is_some t.used_at ≡ false
    → ltb t.expires_at env.now ≡ false
    → find_user t.user_id db ≡ some u
    → let (result, db') = reset_password env raw_token password_hash db in
      (result ≡ ok tt) × (find_link env raw_token db' ≡ some (used_now env t))
unfolding reset_password update_password_hash update_user revoke_all_for_user revoke_user ◌>>=◌
reset_password_uses env raw_token password_hash db found purpose unused alive user =
    elim (Bool-cases env.redis_up) [
      | inl up ↦
          rw (found, purpose, unused, alive, user, up) (refl, link_used env raw_token db found)
      | inr down ↦
          rw (found, purpose, unused, alive, user, down) (refl, link_used env raw_token db found)
    ]

-- A reset by a fresh link of a user that exists returns, and a second reset by the same link, at
-- any later time, is refused and changes nothing.
pub reset_password_once :
    (env : AuthEnv) (raw_token password_hash other_hash later : ℕ) (db : Db) {t : VerificationToken}
    {u : User}
    → find_link env raw_token db ≡ some t
    → purpose_eq t.purpose password_reset ≡ true
    → is_some t.used_at ≡ false
    → ltb t.expires_at env.now ≡ false
    → find_user t.user_id db ≡ some u
    → let (result, db') = reset_password env raw_token password_hash db in
      (result ≡ ok tt)
      × (reset_password (record env { now = later }) raw_token other_hash db'
          ≡ (err bad_request, db'))
reset_password_once env raw_token password_hash other_hash later db {t} {u} found purpose unused
      alive user =
    let db' = (reset_password env raw_token password_hash db).1 in
    let (returned, used) =
      reset_password_uses env raw_token password_hash db {u = u} found purpose unused alive user in
    (
      returned,
      used_link_refused (record env { now = later }) raw_token other_hash db' {t = used_now env t}
          used refl,
    )

-- Once a user has asked for a reset, an older link of that user for a reset is refused, and the
-- refusal changes nothing.
pub forgot_password_supersedes :
    (env : AuthEnv) (raw_token password_hash later : ℕ) (email : String) (db : Db)
    {t : VerificationToken} {u : User}
    → find_by_email email db ≡ some u
    → find_link env raw_token db ≡ some t
    → t.user_id ≡ u.id
    → purpose_eq t.purpose password_reset ≡ true
    → let db' = (forgot_password env email db).1 in
      reset_password (record env { now = later }) raw_token password_hash db'
      ≡ (err bad_request, db')
unfolding forgot_password issue_verification_token ◌>>=◌
forgot_password_supersedes env raw_token password_hash later email db {t} {u} found link same
      purpose =
    let all_used =
      update_where (unused_filter u.id password_reset) (used_now env) db.verification_tokens in
    let moved : find_first (λ r. r.token_hash == env.hash raw_token) all_used
        ≡ some (updated (unused_filter u.id password_reset) (used_now env) t) =
      rw
        (
          find_first-update_where (λ r. r.token_hash == env.hash raw_token)
              (unused_filter u.id password_reset) (used_now env) (λ r. refl) db.verification_tokens,
          link,
        )
        refl in
    rw found (
      used_link_refused (record env { now = later }) raw_token password_hash _
        {t = updated (unused_filter u.id password_reset) (used_now env) t}
        (find_first-append_found (λ r. r.token_hash == env.hash raw_token) all_used _ moved)
        (ground arith))
