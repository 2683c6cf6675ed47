-- ===== src/Auth/Refresh.antt =====
-- `refresh`, `logout` and `logoutAll` of src/auth/auth.service.ts.
pub mod Laws
pub mod Replay
use conference_contact.Prelude.{
  ℕ, ◌-◌, ◌*◌, Bool, true, false, not, ◌&&◌, Option, none, some, ◌==◌, leb, ltb, is_some,
  if◌then◌else◌,
}
use conference_contact.Schema.{Db, audit}
use conference_contact.Schema.Accounts.{User, Session, is_active_account}
use conference_contact.Action.{Action, unauthorized, pure, raise, gets, skip, emit, ◌>>=◌, ◌>>◌}
use conference_contact.AuthEnv.{AuthEnv}
use conference_contact.Auth.{TokenPair, access_payload}
use conference_contact.Guards.{find_user}
use conference_contact.Revocation.{revoke_user}
use conference_contact.Sessions.{
  is_open, find_active_by_raw_token, find_any_by_raw_token, find_session, rotate, revoke,
  revoke_all_for_user,
}

abbrev pub concurrent_refresh_grace_seconds : ℕ
concurrent_refresh_grace_seconds = 15

abbrev pub only_open : ℕ → Option Session → Option Session
only_open now none = none
only_open now (some s) = if is_open now s then some s else none

abbrev successor_of : Option ℕ → Option ℕ → ℕ → Db → Option Session
successor_of none replaced_by now db = none
successor_of (some revoked_at) none now db = none
successor_of (some revoked_at) (some id) now db =
    if leb (now - revoked_at) (concurrent_refresh_grace_seconds * 1000)
    then only_open now (find_session id db)
    else none

-- the live successor of a session that was rotated at most the grace period ago
unfoldable pub grace_successor : Option Session → ℕ → Db → Option Session
grace_successor none now db = none
grace_successor (some s) now db = successor_of s.revoked_at s.replaced_by_token_id now db

module _ (env : AuthEnv) where
  -- The token is of no open session, and there is no successor to go on with.
  unfoldable pub reject_token : Option Session → Action Session
  reject_token none = raise unauthorized
  reject_token (some s) =
      if is_some s.revoked_at
      then (do
        revoke_all_for_user env s.user_id
        emit (audit (some s.user_id) "auth.refresh_token_reuse_detected" none)
        raise unauthorized)
      else raise unauthorized

  abbrev pub or_reject : Option Session → Option Session → Action Session
  or_reject (some successor) any_session = pure successor
  or_reject none any_session = reject_token any_session

  abbrev pub or_successor : Option Session → ℕ → Action Session
  or_successor (some s) raw_token = pure s
  or_successor none raw_token = do
    any_session ← gets (find_any_by_raw_token env raw_token)
    successor ← gets (grace_successor any_session env.now)
    or_reject successor any_session

  -- the session that the request goes on with
  unfoldable pub session_of_token : ℕ → Action Session
  unfolding reject_token
  session_of_token raw_token = do
    session ← gets (find_active_by_raw_token env raw_token)
    or_successor session raw_token

  -- `!user || user.status !== 'ACTIVE'`, and the branch for it
  abbrev pub refuse_inactive : Session → Action TokenPair
  refuse_inactive session = do revoke env session.id; raise unauthorized

  unfoldable pub rotate_for : Option User → Session → Action TokenPair
  rotate_for none session = refuse_inactive session
  rotate_for (some u) session =
      if is_active_account u.status
      then (do
        issued ← rotate env session
        pure (record {
          access_token = access_payload u;
          refresh_token = issued.0;
          refresh_token_expires_at = issued.1.expires_at;
        }))
      else refuse_inactive session

  unfoldable pub refresh : ℕ → Action TokenPair
  unfolding session_of_token rotate_for
  refresh raw_token = do
    session ← session_of_token raw_token
    user ← gets (find_user session.user_id)
    rotate_for user session

  abbrev end_session : Option Session → Action (Unit {0})
  end_session none = skip
  end_session (some s) = do revoke env s.id; emit (audit (some s.user_id) "auth.logout" none)

  unfoldable pub logout : ℕ → Action (Unit {0})
  logout raw_token = do session ← gets (find_active_by_raw_token env raw_token); end_session session

  unfoldable pub logout_all : ℕ → Action (Unit {0})
  logout_all user_id = do
    revoke_all_for_user env user_id
    revoke_user env.redis_up env.access_token_ttl_seconds user_id env.now
    emit (audit (some user_id) "auth.logout_all" none)
