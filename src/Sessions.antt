-- ===== src/Sessions.antt =====
-- src/sessions/sessions.service.ts. A raw token is a number, and `env.hash` its hash.
pub mod Limit
use conference_contact.Prelude.{
  ℕ, ◌+◌, ◌-◌, ◌*◌, String, Bool, true, false, not, ◌&&◌, Option, none, some, List, [], ◌∷◌, ◌++◌,
  ◌==◌, ltb, any, length, take, sort_by, find_first, filter_where, update_where, is_some,
  if◌then◌else◌,
}
use conference_contact.Schema.{Db}
use conference_contact.Schema.Accounts.{Session}
use conference_contact.Action.{
  Action, record_not_found, pure, gets, or_raise, skip, modify, ◌>>=◌, ◌>>◌,
}
use conference_contact.AuthEnv.{AuthEnv}

-- `revokedAt: null, expiresAt: { gt: new Date() }`
abbrev pub is_open : ℕ → Session → Bool
is_open now s = not (is_some s.revoked_at) && ltb now s.expires_at

abbrev pub open_filter : ℕ → ℕ → Session → Bool
open_filter user_id now s = s.user_id == user_id && is_open now s

-- `id: { in: active.slice(0, overBy).map((s) => s.id) }`
abbrev pub among : List Session → Session → Bool
among evicted s = any (λ e. e.id == s.id) evicted

abbrev pub revoked_now : ℕ → Session → Session
revoked_now now s = record s { revoked_at = some now }

-- `session.update` by id, which throws on a missing row
unfoldable pub update_session : ℕ → (Session → Session) → Action (Unit {0})
update_session id f = do
  or_raise (← gets (λ db. find_first (λ s. s.id == id) db.sessions)) record_not_found
  modify (λ db. record db { sessions = update_where (λ s. s.id == id) f db.sessions })

abbrev pub update_sessions : (Session → Bool) → (Session → Session) → Action (Unit {0})
update_sessions p f = modify λ db. record db { sessions = update_where p f db.sessions }

-- `findById`
abbrev pub find_session : ℕ → Db → Option Session
find_session id db = find_first (λ s. s.id == id) db.sessions

-- `CreateSessionInput`
pub record CreateSessionInput : Type 0 where
  pub user_id : ℕ
  pub device_id : Option ℕ
  pub country : Option String
  pub risk_score : ℕ

module _ (env : AuthEnv) where
  -- the user's open sessions, oldest first
  abbrev pub active_sessions : ℕ → List Session → List Session
  active_sessions user_id sessions =
      sort_by (λ s. s.created_at) (filter_where (open_filter user_id env.now) sessions)

  -- `overBy`, which is not positive exactly when it is 0 here
  abbrev pub over_by : List Session → ℕ
  over_by active = length active + 1 - env.max_devices

  unfoldable pub enforce_limit : ℕ → Action (Unit {0})
  unfolding ◌>>=◌
  enforce_limit user_id = do
    active ← gets (λ db. active_sessions user_id db.sessions)
    if over_by active == 0
        then skip
        else update_sessions (among (take (over_by active) active)) (revoked_now env.now)

  unfoldable pub new_session : CreateSessionInput → Session
  new_session input = record {
    id = env.fresh;
    user_id = input.user_id;
    device_id = input.device_id;
    token_hash = env.hash env.new_token;
    country = input.country;
    risk_score = input.risk_score;
    replaced_by_token_id = none;
    created_at = env.now;
    last_activity_at = env.now;
    expires_at = env.now + env.refresh_expiry_days * 86400000;
    revoked_at = none;
  }

  unfoldable pub create : CreateSessionInput → Action (ℕ × Session)
  unfolding new_session
  create input = do
    modify (λ db. record db { sessions = db.sessions ++ new_session input ∷ [] })
    pure (env.new_token, new_session input)

  unfoldable pub find_active_by_raw_token : ℕ → Db → Option Session
  find_active_by_raw_token raw_token db =
      find_first (λ s. s.token_hash == env.hash raw_token && is_open env.now s) db.sessions

  unfoldable pub find_any_by_raw_token : ℕ → Db → Option Session
  find_any_by_raw_token raw_token db =
      find_first (λ s. s.token_hash == env.hash raw_token) db.sessions

  abbrev pub replaced : ℕ → Session → Session
  replaced successor_id s = record s {
    revoked_at = some env.now;
    replaced_by_token_id = some successor_id;
  }

  unfoldable pub rotate : Session → Action (ℕ × Session)
  unfolding create update_session
  rotate old_session = do
    issued ← create (record {
      user_id = old_session.user_id;
      device_id = old_session.device_id;
      country = none;
      risk_score = 0;
    })
    update_session old_session.id (replaced issued.1.id)
    pure issued

  unfoldable pub revoke : ℕ → Action (Unit {0})
  unfolding update_session
  revoke session_id = update_session session_id (revoked_now env.now)

  unfoldable pub revoke_all_for_user : ℕ → Action (Unit {0})
  unfolding modify
  revoke_all_for_user user_id =
      update_sessions (λ s. s.user_id == user_id && not (is_some s.revoked_at))
        (revoked_now env.now)

  unfoldable pub touch_activity : ℕ → Action (Unit {0})
  unfolding update_session
  touch_activity session_id =
      update_session session_id (λ s. record s { last_activity_at = env.now })
