-- ===== src/Auth/Controller/Laws.antt =====
-- A browser that logs out, and whoever holds a copy of its cookie.
use conference_contact.Prelude.{
  ℕ, ◌++◌, ◌==◌, ◌≡◌, refl, Option, none, some, [], ◌∷◌, update_where, arith,
}
use conference_contact.Prelude.Rows.Updates.{find_first-none, find_first-update_where}
use conference_contact.Schema.{Db, audit}
use conference_contact.Schema.Accounts.{Session}
use conference_contact.Action.{Result, Error, ok, err, unauthorized, ◌>>=◌}
use conference_contact.AuthEnv.{AuthEnv}
use conference_contact.Auth.{TokenPair}
use conference_contact.Auth.Controller.{
  RefreshCookie, Jar, RouteEnv, clear_refresh_cookie, get_or_create_device_id, refresh_reply,
  refresh_route, logout_route,
}
use conference_contact.Auth.Refresh.{grace_successor, logout, refresh}
use conference_contact.Auth.Refresh.Laws.{
  AllRevoked, HasOwnHash, none_open, found_by_id, refresh_reuse,
}
use conference_contact.Sessions.{
  find_active_by_raw_token, find_any_by_raw_token, revoke, update_session, revoked_now,
}

abbrev logged_out : AuthEnv → Session → Db → Db
logged_out env s db = record db {
  sessions = update_where (λ x. x.id == s.id) (revoked_now env.now) db.sessions;
  effects = db.effects ++ audit (some s.user_id) "auth.logout" none ∷ [];
}

module _ (env : AuthEnv) (raw_token : ℕ) (db : Db) (later : ℕ) {s : Session}
    (active : find_active_by_raw_token env raw_token db ≡ some s)
    (any_session : find_any_by_raw_token env raw_token db ≡ some s)
    (own : HasOwnHash (env.hash raw_token) s db.sessions) where
  logout_lem : logout env raw_token db ≡ (ok tt, logged_out env s db)
  unfolding logout revoke update_session ◌>>=◌
  logout_lem = let (b, found) = found_by_id env raw_token db any_session in rw (active, found) refl

  closed-inactive :
      find_active_by_raw_token (record env { now = later }) raw_token (logged_out env s db) ≡ none
  unfolding find_active_by_raw_token
  closed-inactive = find_first-none _ _ (
      none_open (revoked_now env.now) (env.hash raw_token) s later db.sessions (λ x. refl)
        (λ x. refl) own)

  closed-any :
      find_any_by_raw_token (record env { now = later }) raw_token (logged_out env s db)
      ≡ some (revoked_now env.now s)
  unfolding find_any_by_raw_token
  closed-any =
      rw
        (
          find_first-update_where (λ x. x.token_hash == env.hash raw_token) (λ x. x.id == s.id)
              (revoked_now env.now) (λ x. refl) db.sessions,
          any_session,
        )
        (ground arith)

refused_reply :
    (jar : Jar) (r : Result TokenPair × Db) {e : Error}
    → r.0 ≡ err e
    → refresh_reply jar r ≡ record { body = err e; jar = clear_refresh_cookie jar; db = r.1 }
refused_reply jar (r, db) h = rw h refl

-- A browser with the cookie of an open session, which was not rotated, and whose token has a hash of
-- its own, logs out. That returns and clears the cookie, and the browser then gets no access token. A
-- copy of the cookie, presented at any later time and from any device, is refused and cleared, and
-- leaves every session of the user revoked.
pub logged_out_for_good :
    (env : RouteEnv) (cookie : RefreshCookie) (device other_device : Option ℕ) (later : ℕ) (db : Db)
    {s : Session}
    → find_active_by_raw_token env.auth cookie.token db ≡ some s
    → find_any_by_raw_token env.auth cookie.token db ≡ some s
    → HasOwnHash (env.auth.hash cookie.token) s db.sessions
    → s.replaced_by_token_id ≡ none
    → let out = logout_route env (record { refresh_cookie = some cookie; device_id = device }) db in
      let again = record env { auth = record env.auth { now = later } } in
      let copy =
        refresh_route again
          (record { refresh_cookie = some cookie; device_id = other_device })
          out.db in
      (out.body ≡ ok tt)
      × (out.jar.refresh_cookie ≡ none)
      × ((refresh_route again out.jar out.db).body ≡ ok none)
      × (copy.body ≡ err unauthorized)
      × (copy.jar.refresh_cookie ≡ none)
      × AllRevoked s.user_id copy.db.sessions
unfolding logout_route refresh_route grace_successor
logged_out_for_good env cookie device other_device later db {s} active any_session own not_rotated =
    let done = logout_lem env.auth cookie.token db later active any_session own in
    let again = record env.auth { now = later } in
    let db' = logged_out env.auth s db in
    let (refused, revoked) =
      refresh_reuse again cookie.token db' {s = revoked_now env.auth.now s}
        (closed-inactive env.auth cookie.token db later active any_session own)
        (closed-any env.auth cookie.token db later active any_session own) refl
        (rw not_rotated refl) in
    let jar =
      get_or_create_device_id (record env { auth = again })
        (record { refresh_cookie = some cookie; device_id = other_device }) in
    let reply = refused_reply jar.1 (refresh again cookie.token db') refused in
    rw (done, reply) (refl, refl, refl, refl, refl, revoked)
