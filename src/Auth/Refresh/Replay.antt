-- ===== src/Auth/Refresh/Replay.antt =====
-- What happens to a refresh token that was rotated and is presented again.
use conference_contact.Prelude.{
  ℕ, ◌+◌, ◌-◌, ◌*◌, ◌≤◌, ◌<◌, true, false, none, some, ◌==◌, leb, ltb, ◌≡◌, refl, arith,
}
use conference_contact.Schema.{Db}
use conference_contact.Schema.Accounts.{User, Session, is_active_account}
use conference_contact.Action.{ok, err, unauthorized, ◌>>=◌}
use conference_contact.AuthEnv.{AuthEnv}
use conference_contact.Auth.Refresh.{grace_successor, refresh}
use conference_contact.Auth.Refresh.Laws.{
  HasOwnHash, AllRevoked, rotated, continued, rotated_pair, refresh_rotates, refresh_reuse,
  rotate_lem, rotated-inactive, rotated-any, rotated-successor,
}
use conference_contact.Guards.{find_user}
use conference_contact.Sessions.{
  find_active_by_raw_token, find_any_by_raw_token, find_session, new_session, replaced,
}

-- The environment of a later request: other ids and random values.
abbrev pub later_env : AuthEnv → ℕ → ℕ → ℕ → AuthEnv
later_env env later fresh new_token = record env {
  now = later;
  fresh = fresh;
  new_token = new_token;
}

module _ (env : AuthEnv) (raw_token : ℕ) (db : Db) (later fresh new_token : ℕ) {s : Session}
    {u : User} where
  -- Two requests with the same refresh token, the first of them while the session is open and the
  -- second at most fifteen seconds later: when the ids and the hashes are unique, the account is
  -- active and the new session has not expired yet, both return a pair of tokens for the user, and
  -- the second pair is a new one.
  pub refresh_in_grace :
      find_active_by_raw_token env raw_token db ≡ some s
      → find_any_by_raw_token env raw_token db ≡ some s
      → find_user s.user_id db ≡ some u
      → is_active_account u.status ≡ true
      → HasOwnHash (env.hash raw_token) s db.sessions
      → find_session env.fresh db ≡ none
      → (env.hash env.new_token == env.hash raw_token) ≡ false
      → later - env.now ≤ 15 * 1000
      → later < env.now + env.refresh_expiry_days * 86400000
      → let db' = (refresh env raw_token db).1 in
        let again = later_env env later fresh new_token in
        ((refresh env raw_token db).0 ≡ ok (rotated_pair env u))
        × ((refresh again raw_token db').0 ≡ ok (rotated_pair again u))
  unfolding refresh find_active_by_raw_token find_any_by_raw_token grace_successor ◌>>=◌ new_session
  refresh_in_grace active any_session user is_active own fresh_id fresh_hash soon alive =
      let again = later_env env later fresh new_token in
      let db' = record db { sessions = rotated env s db.sessions } in
      let successor = rotated-successor env raw_token db s any_session own fresh_id fresh_hash in
      let in_time : leb (later - env.now) (15 * 1000) ≡ true = ground arith in
      let still : ltb later (env.now + env.refresh_expiry_days * 86400000) ≡ true = ground arith in
      rw (refresh_rotates env raw_token db active any_session user is_active) (
        refl,
        rw
            (
              rotated-inactive env raw_token db s any_session own fresh_id fresh_hash later,
              rotated-any env raw_token db s any_session own fresh_id fresh_hash,
              in_time,
              successor,
              still,
              user,
              is_active,
              rotate_lem again db' (new_session env (continued s)) successor,
            )
            refl,
      )

  -- Two requests with the same refresh token, the first of them while the session is open and the
  -- second more than fifteen seconds later: when the ids and the hashes are unique and the account is
  -- active, the first returns a pair of tokens, and the second is refused and leaves every session of
  -- the user revoked, the one that the first request got too.
  pub refresh_after_grace :
      find_active_by_raw_token env raw_token db ≡ some s
      → find_any_by_raw_token env raw_token db ≡ some s
      → find_user s.user_id db ≡ some u
      → is_active_account u.status ≡ true
      → HasOwnHash (env.hash raw_token) s db.sessions
      → find_session env.fresh db ≡ none
      → (env.hash env.new_token == env.hash raw_token) ≡ false
      → 15 * 1000 < later - env.now
      → let db' = (refresh env raw_token db).1 in
        let again = later_env env later fresh new_token in
        ((refresh env raw_token db).0 ≡ ok (rotated_pair env u))
        × ((refresh again raw_token db').0 ≡ err unauthorized)
        × AllRevoked s.user_id (refresh again raw_token db').1.sessions
  unfolding find_active_by_raw_token find_any_by_raw_token grace_successor
  refresh_after_grace active any_session user is_active own fresh_id fresh_hash late =
      let again = later_env env later fresh new_token in
      let first = refresh_rotates env raw_token db active any_session user is_active in
      let db' = record db { sessions = rotated env s db.sessions } in
      let (refused, revoked) =
        refresh_reuse again raw_token db' {s = replaced env env.fresh s}
          (rotated-inactive env raw_token db s any_session own fresh_id fresh_hash later)
          (rotated-any env raw_token db s any_session own fresh_id fresh_hash) refl
          (ground arith) in
      rw first (refl, refused, revoked)
