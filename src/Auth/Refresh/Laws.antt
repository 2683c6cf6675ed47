-- ===== src/Auth/Refresh/Laws.antt =====
-- The rotation of a refresh token, and the answer to a token that was stolen.
use conference_contact.Prelude.{
  ℕ, ◌+◌, ◌*◌, true, false, not, ◌&&◌, none, some, List, [], ◌∷◌, ◌++◌, ◌==◌, ◌≡◌, refl, is_some,
  find_first, update_where, All, Bool-cases, inl, inr, arith,
}
use conference_contact.Prelude.Rows.Updates.{
  find_first_exists, find_first-none, None-find_first, find_first-append, find_first-append_found,
  find_first-update_where, All-find_first, All-append,
}
use conference_contact.Schema.{Db}
use conference_contact.Schema.Accounts.{User, Session, is_active_account}
use conference_contact.Action.{ok, err, unauthorized, ◌>>=◌}
use conference_contact.AuthEnv.{AuthEnv}
use conference_contact.Auth.{TokenPair, access_payload}
use conference_contact.Auth.Refresh.{grace_successor, refresh}
use conference_contact.Guards.{find_user}
use conference_contact.Sessions.{
  CreateSessionInput, is_open, find_active_by_raw_token, find_any_by_raw_token, find_session,
  new_session, replaced, rotate, revoked_now, create, update_session, revoke_all_for_user,
}

-- Every session of the user is revoked.
abbrev pub AllRevoked : ℕ → List Session → Type 0
AllRevoked user_id sessions =
    All (λ x. (x.user_id == user_id) ≡ true → is_some x.revoked_at ≡ true) sessions

pub AllRevoked-revoke :
    (user_id now : ℕ) (xs : List Session)
    → AllRevoked user_id (
        update_where (λ x. x.user_id == user_id && not (is_some x.revoked_at)) (revoked_now now) xs)
AllRevoked-revoke user_id now [] = tt
AllRevoked-revoke user_id now (x ∷ xs) = (λ h. ground arith, AllRevoked-revoke user_id now xs)

-- A refresh with the token of a revoked session that has no live successor within the grace period
-- is refused, and leaves every session of that user revoked.
pub refresh_reuse :
    (env : AuthEnv) (raw_token : ℕ) (db : Db) {s : Session}
    → find_active_by_raw_token env raw_token db ≡ none
    → find_any_by_raw_token env raw_token db ≡ some s
    → is_some s.revoked_at ≡ true
    → grace_successor (some s) env.now db ≡ none
    → ((refresh env raw_token db).0 ≡ err unauthorized)
      × AllRevoked s.user_id (refresh env raw_token db).1.sessions
unfolding refresh ◌>>=◌ revoke_all_for_user
refresh_reuse env raw_token db {s} inactive any_session revoked no_successor =
    rw (inactive, any_session, no_successor, revoked)
      (refl, AllRevoked-revoke s.user_id env.now db.sessions)

-- What `rotate` is called with.
abbrev pub continued : Session → CreateSessionInput
continued s = record {
  user_id = s.user_id;
  device_id = s.device_id;
  country = none;
  risk_score = 0;
}

-- The sessions after a rotation.
abbrev pub rotated : AuthEnv → Session → List Session → List Session
rotated env s xs =
    update_where (λ x. x.id == s.id) (replaced env env.fresh)
      (xs ++ new_session env (continued s) ∷ [])

pub rotate_lem :
    (env : AuthEnv) (db : Db) (s : Session) {b : Session}
    → find_session s.id db ≡ some b
    → rotate env s db ≡ (
      ok (env.new_token, new_session env (continued s)),
      record db { sessions = rotated env s db.sessions },
    )
unfolding rotate create update_session ◌>>=◌ new_session
rotate_lem env db s found =
    rw
      (find_first-append_found (λ x. x.id == s.id) db.sessions (new_session env (continued s) ∷ [])
        found)
      refl

-- A session that a token finds is there under its id.
pub found_by_id :
    (env : AuthEnv) (raw_token : ℕ) (db : Db) {s : Session}
    → find_any_by_raw_token env raw_token db ≡ some s
    → (b : Session) × (find_session s.id db ≡ some b)
unfolding find_any_by_raw_token
found_by_id env raw_token db {s} found =
    find_first_exists (λ x. x.token_hash == env.hash raw_token) (λ x. x.id == s.id) db.sessions
      found (ground arith)

-- The pair for a session that is rotated.
abbrev pub rotated_pair : AuthEnv → User → TokenPair
rotated_pair env u = record {
  access_token = access_payload u;
  refresh_token = env.new_token;
  refresh_token_expires_at = env.now + env.refresh_expiry_days * 86400000;
}

module _ (env : AuthEnv) (raw_token : ℕ) (db : Db) {s : Session} {u : User} where
  -- A refresh with the token of an open session of an active account rotates it.
  pub refresh_rotates :
      find_active_by_raw_token env raw_token db ≡ some s
      → find_any_by_raw_token env raw_token db ≡ some s
      → find_user s.user_id db ≡ some u
      → is_active_account u.status ≡ true
      → refresh env raw_token db
        ≡ (ok (rotated_pair env u), record db { sessions = rotated env s db.sessions })
  unfolding refresh new_session ◌>>=◌
  refresh_rotates active any_session user is_active =
      let (b, found) = found_by_id env raw_token db any_session in
      rw (active, user, is_active, rotate_lem env db s found) refl

-- The only session with the token's hash is `s`.
abbrev pub HasOwnHash : ℕ → Session → List Session → Type 0
HasOwnHash h s xs = All (λ x. (x.token_hash == h) ≡ true → x ≡ s) xs

-- After a session was revoked, in whichever way, no session with the token's hash is open.
pub none_open :
    (f : Session → Session) (h : ℕ) (s : Session) (later : ℕ) (xs : List Session)
    → ((x : Session) → (f x).token_hash ≡ x.token_hash)
    → ((x : Session) → is_some (f x).revoked_at ≡ true)
    → HasOwnHash h s xs
    → All
        (λ x. (x.token_hash == h && is_open later x) ≡ false)
        (update_where (λ x. x.id == s.id) f xs)
none_open f h s later [] keeps revokes own = tt
none_open f h s later (x ∷ xs) keeps revokes (own, rest) = (
  elim (Bool-cases (x.token_hash == h)) [
    | inl same ↦ (let e = own same in rw e (ground (arith, revokes s)))
    | inr other ↦ ground (arith, other, keeps x)
  ],
  none_open f h s later xs keeps revokes rest,
)

module _ (env : AuthEnv) (raw_token : ℕ) (s : Session) where
  HasOwnHash-append :
      (xs : List Session)
      → HasOwnHash (env.hash raw_token) s xs
      → (env.hash env.new_token == env.hash raw_token) ≡ false
      → HasOwnHash (env.hash raw_token) s (xs ++ new_session env (continued s) ∷ [])
  unfolding new_session
  HasOwnHash-append xs own fresh =
      All-append (λ x. (x.token_hash == env.hash raw_token) ≡ true → x ≡ s) xs
        (new_session env (continued s)) own (λ h. ground (arith, fresh))

-- The state that a rotation leaves, when the ids and the hashes of the table are unique.
module _ (env : AuthEnv) (raw_token : ℕ) (db : Db) (s : Session)
    (any_session : find_any_by_raw_token env raw_token db ≡ some s)
    (own : HasOwnHash (env.hash raw_token) s db.sessions)
    (fresh_id : find_session env.fresh db ≡ none)
    (fresh_hash : (env.hash env.new_token == env.hash raw_token) ≡ false) where
  pub rotated-inactive :
      (later : ℕ)
      → find_first
          (λ x. x.token_hash == env.hash raw_token && is_open later x)
          (rotated env s db.sessions)
        ≡ none
  rotated-inactive later = find_first-none _ _ (
      none_open (replaced env env.fresh) (env.hash raw_token) s later
        (db.sessions ++ new_session env (continued s) ∷ []) (λ x. refl) (λ x. refl)
        (HasOwnHash-append env raw_token s db.sessions own fresh_hash))

  pub rotated-any :
      find_first (λ x. x.token_hash == env.hash raw_token) (rotated env s db.sessions)
      ≡ some (replaced env env.fresh s)
  unfolding find_any_by_raw_token
  rotated-any =
      rw
        (
          find_first-update_where (λ x. x.token_hash == env.hash raw_token) (λ x. x.id == s.id)
              (replaced env env.fresh) (λ x. refl)
              (db.sessions ++ new_session env (continued s) ∷ []),
          find_first-append_found (λ x. x.token_hash == env.hash raw_token) db.sessions
              (new_session env (continued s) ∷ []) any_session,
        )
        (ground arith)

  other_id : (env.fresh == s.id) ≡ false
  unfolding find_any_by_raw_token
  other_id =
      let e =
        All-find_first (λ x. (x.id == env.fresh) ≡ false) (λ x. x.token_hash == env.hash raw_token)
          db.sessions (None-find_first (λ x. x.id == env.fresh) db.sessions fresh_id) any_session in
      ground (arith, e)

  pub rotated-successor :
      find_first (λ x. x.id == env.fresh) (rotated env s db.sessions)
      ≡ some (new_session env (continued s))
  unfolding new_session
  rotated-successor =
      rw
        (
          find_first-update_where (λ x. x.id == env.fresh) (λ x. x.id == s.id)
              (replaced env env.fresh) (λ x. refl)
              (db.sessions ++ new_session env (continued s) ∷ []),
          find_first-append (λ x. x.id == env.fresh) db.sessions (new_session env (continued s))
              fresh_id,
        )
        (ground (arith, other_id))
