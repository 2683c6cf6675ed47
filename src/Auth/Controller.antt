-- ===== src/Auth/Controller.antt =====
-- The routes of src/auth/auth.controller.ts that read or write cookies. The jar of the browser goes in,
-- and comes back as the response leaves it. The bodies of the requests have passed their checks.
pub mod Laws
use conference_contact.Prelude.{ℕ, Bool, String, Option, none, some}
use conference_contact.Schema.{Db}
use conference_contact.Action.{Result, ok, err}
use conference_contact.AuthEnv.{AuthEnv}
use conference_contact.Auth.{TokenPair}
use conference_contact.Auth.Erasure.{delete_account}
use conference_contact.Auth.Login.{
  LoginChallenge, LoginResult, logged_in, requires_verification, login, verify_login,
}
use conference_contact.Auth.Refresh.{refresh, logout, logout_all}
use conference_contact.Guards.{TokenPayload}

-- the cookie `cc_rt`
pub record RefreshCookie : Type 0 where
  pub token : ℕ
  pub expires : ℕ

pub record Jar : Type 0 where
  pub refresh_cookie : Option RefreshCookie
  pub device_id : Option ℕ

-- What the services run in, the token for a device without a cookie, and the fingerprint of a device
-- as a function of its id, for the browser at hand.
pub record RouteEnv : Type 0 where
  pub auth : AuthEnv
  pub fresh_device_id : ℕ
  pub fingerprint : ℕ → ℕ

pub record Reply (A : Type 0) : Type 0 where
  pub body : Result A
  pub jar : Jar
  pub db : Db

-- `accessToken`, or what the user has to verify
pub data LoginBody : Type 0 where
  entered : TokenPayload → LoginBody
  challenged : LoginChallenge → LoginBody

abbrev pub set_refresh_cookie : TokenPair → Jar → Jar
set_refresh_cookie pair jar = record jar {
  refresh_cookie =
      some (record { token = pair.refresh_token; expires = pair.refresh_token_expires_at });
}

abbrev pub clear_refresh_cookie : Jar → Jar
clear_refresh_cookie jar = record jar { refresh_cookie = none }

-- `getOrCreateDeviceId`: the id, and the cookie for it
abbrev pub get_or_create_device_id : RouteEnv → Jar → ℕ × Jar
get_or_create_device_id env jar = elim jar.device_id [
  | some existing ↦ (existing, jar)
  | none ↦ (env.fresh_device_id, record jar { device_id = some env.fresh_device_id })
]

abbrev login_reply : Jar → Result LoginResult × Db → Reply LoginBody
login_reply jar (err e, db) = record { body = err e; jar = jar; db = db }
login_reply jar (ok (logged_in pair), db) = record {
  body = ok (entered pair.access_token);
  jar = set_refresh_cookie pair jar;
  db = db;
}
login_reply jar (ok (requires_verification challenge), db) = record {
  body = ok (challenged challenge);
  jar = jar;
  db = db;
}

unfoldable pub login_route : RouteEnv → String → ℕ → Jar → Db → Reply LoginBody
unfolding login
login_route env email password jar db =
    let (id, jar') = get_or_create_device_id env jar in
    login_reply jar' (login env.auth email password (env.fingerprint id) db)

abbrev verify_login_reply : Jar → Result TokenPair × Db → Reply TokenPayload
verify_login_reply jar (err e, db) = record { body = err e; jar = jar; db = db }
verify_login_reply jar (ok pair, db) = record {
  body = ok pair.access_token;
  jar = set_refresh_cookie pair jar;
  db = db;
}

unfoldable pub verify_login_route :
    RouteEnv → (ℕ → ℕ → Option LoginChallenge) → ℕ → ℕ → Jar → Db → Reply TokenPayload
unfolding verify_login
verify_login_route env read_challenge challenge_token code jar db =
    let (id, jar') = get_or_create_device_id env jar in
    verify_login_reply jar' (verify_login env.auth read_challenge challenge_token code db)

-- The `catch` clears the cookie, and throws again.
abbrev pub refresh_reply : Jar → Result TokenPair × Db → Reply (Option TokenPayload)
refresh_reply jar (err e, db) = record { body = err e; jar = clear_refresh_cookie jar; db = db }
refresh_reply jar (ok pair, db) = record {
  body = ok (some pair.access_token);
  jar = set_refresh_cookie pair jar;
  db = db;
}

-- A body of `none` is `{ accessToken: null }`.
unfoldable pub refresh_route : RouteEnv → Jar → Db → Reply (Option TokenPayload)
unfolding refresh
refresh_route env jar db = elim jar.refresh_cookie [
  | none ↦ record { body = ok none; jar = clear_refresh_cookie jar; db = db }
  | some cookie ↦
      (let (id, jar') = get_or_create_device_id env jar in
        refresh_reply jar' (refresh env.auth cookie.token db))
]

-- The cookie is cleared once the service has returned.
abbrev pub cleared_reply : {A : Type 0} → Jar → Result A × Db → Reply A
cleared_reply jar (err e, db) = record { body = err e; jar = jar; db = db }
cleared_reply jar (ok a, db) = record { body = ok a; jar = clear_refresh_cookie jar; db = db }

unfoldable pub logout_route : RouteEnv → Jar → Db → Reply (Unit {0})
unfolding logout
logout_route env jar db = elim jar.refresh_cookie [
  | none ↦ cleared_reply jar (ok tt, db)
  | some cookie ↦ cleared_reply jar (logout env.auth cookie.token db)
]

unfoldable pub logout_all_route : RouteEnv → TokenPayload → Jar → Db → Reply (Unit {0})
unfolding logout_all
logout_all_route env user jar db = cleared_reply jar (logout_all env.auth user.sub db)

unfoldable pub delete_account_route :
    RouteEnv → (ℕ → Bool) → TokenPayload → ℕ → Jar → Db → Reply (Unit {0})
unfolding delete_account
delete_account_route env cancel_at_stripe user password jar db =
    cleared_reply jar (delete_account env.auth cancel_at_stripe user.sub password db)
