-- ===== src/Auth/Login.antt =====
-- `login`, `verifyLogin` and `issueTokenPair` of src/auth/auth.service.ts. The email is normalized
-- and the device fingerprint hashed already; `read_challenge` is `jwt.verifyAsync`.
pub mod Laws
use conference_contact.Prelude.{
  ℕ, ◌*◌, String, Bool, true, false, not, ◌&&◌, Option, none, some, ◌==◌, leb, is_some,
  if◌then◌else◌,
}
use conference_contact.Schema.{Db, mail, audit}
use conference_contact.Schema.Accounts.{User, Device, Session, is_active_account}
use conference_contact.Action.{
  Action, unauthorized, pure, raise, raise_if, gets, or_raise, skip, emit, ◌>>=◌, ◌>>◌,
}
use conference_contact.AuthEnv.{AuthEnv}
use conference_contact.Auth.{TokenPair, access_payload}
use conference_contact.Devices.{find_or_create_device}
use conference_contact.Guards.{find_user, TokenType, login_challenge, is_access}
use conference_contact.Revocation.{register_challenge_attempt}
use conference_contact.Risk.{assess}
use conference_contact.Sessions.{enforce_limit, create}
use conference_contact.Users.{
  find_by_email, is_locked, register_failed_login, reset_failed_logins, mark_email_verified,
  update_last_login,
}

abbrev pub login_challenge_expiry_minutes : ℕ
login_challenge_expiry_minutes = 10

pub data ChallengeMethod : Type 0 where
  email_code totp : ChallengeMethod

-- `LoginChallengePayload`
pub record LoginChallenge : Type 0 where
  pub sub : ℕ
  pub device_id : ℕ
  pub type : TokenType
  pub method : ChallengeMethod
  pub code_hash : Option ℕ

pub data LoginResult : Type 0 where
  logged_in : TokenPair → LoginResult
  requires_verification : LoginChallenge → LoginResult

abbrev is_email_code : ChallengeMethod → Bool
is_email_code email_code = true
is_email_code totp = false

module _ (env : AuthEnv) where
  unfoldable pub issue_token_pair : ℕ → ℕ → Bool → Action TokenPair
  issue_token_pair user_id device_id is_new_device = do
    user ← or_raise (← gets (find_user user_id)) unauthorized
    score ← gets (
        assess
          (record {
            user_id = user.id;
            is_new_device = is_new_device;
            country = env.country;
            failed_login_count = user.failed_login_count;
          })
          env.now)
    enforce_limit env user.id
    issued ← create env (record {
      user_id = user.id;
      device_id = some device_id;
      country = env.country;
      risk_score = score;
    })
    update_last_login env user.id
    if is_some user.last_login_at then skip else emit (mail "welcome" user.email)
    emit (audit (some user.id) "auth.login" none)
    if leb env.risk_high_threshold score
        then emit (audit (some user.id) "auth.high_risk_login" (some issued.1.id))
        else skip
    pure (record {
      access_token = access_payload user;
      refresh_token = issued.0;
      refresh_token_expires_at = issued.1.expires_at;
    })

  -- the branch of a wrong password
  unfoldable pub refuse_password : User → Action LoginResult
  refuse_password user = do
    locked ← register_failed_login env user.id
    emit (audit (some user.id) "auth.login_failed" none)
    raise unauthorized

  -- the branch of a device that was not seen before
  unfoldable pub challenge_device : User → Device → Action LoginResult
  challenge_device user device =
      if user.two_factor_enabled
      then (do
        emit (audit (some user.id) "auth.new_device_challenge" none)
        pure (
            requires_verification (record {
              sub = user.id;
              device_id = device.id;
              type = login_challenge;
              method = totp;
              code_hash = none;
            })))
      else do
        emit (mail "device-verification-code" user.email)
        emit (audit (some user.id) "auth.new_device_challenge" none)
        pure (
            requires_verification (record {
              sub = user.id;
              device_id = device.id;
              type = login_challenge;
              method = email_code;
              code_hash = some (env.hash env.new_code);
            }))

  -- what follows a right password
  unfoldable pub enter : User → ℕ → Action LoginResult
  unfolding challenge_device
  enter user fingerprint = do
    reset_failed_logins user.id
    (device, is_new) ← find_or_create_device env user.id fingerprint
    if is_new
        then challenge_device user device
        else (do pair ← issue_token_pair user.id device.id false; pure (logged_in pair))

  unfoldable pub login : String → ℕ → ℕ → Action LoginResult
  unfolding refuse_password enter
  login email password fingerprint = do
    user ← or_raise (← gets (find_by_email email)) unauthorized
    raise_if (is_locked user.locked_until env.now) unauthorized
    raise_if (not (is_active_account user.status)) unauthorized
    if env.password_matches user.password_hash password
        then enter user fingerprint
        else refuse_password user

  -- `codeValid`, or the error of a challenge that lacks what its method needs
  unfoldable pub check_code : ChallengeMethod → LoginChallenge → User → ℕ → Action Bool
  check_code totp challenge user code = do
    secret ← or_raise user.two_factor_secret unauthorized
    pure (env.totp_valid code secret)
  check_code email_code challenge user code = do
    expected ← or_raise challenge.code_hash unauthorized
    pure (env.hash code == expected)

  -- `payload.method === 'EMAIL_CODE' && !user.emailVerifiedAt`
  unfoldable pub confirm_email : ChallengeMethod → User → Action (Unit {0})
  confirm_email method user =
      if is_email_code method && not (is_some user.email_verified_at)
      then (do mark_email_verified env user.id; skip)
      else skip

  unfoldable pub verify_login : (ℕ → ℕ → Option LoginChallenge) → ℕ → ℕ → Action TokenPair
  unfolding check_code confirm_email
  verify_login read_challenge challenge_token code = do
    payload ← or_raise (read_challenge challenge_token env.now) unauthorized
    raise_if (is_access payload.type) unauthorized
    user ← or_raise (← gets (find_user payload.sub)) unauthorized
    within_attempt_cap ←
        register_challenge_attempt env.redis_up (env.hash challenge_token)
          (login_challenge_expiry_minutes * 60) env.now
    raise_if (not within_attempt_cap) unauthorized
    code_valid ← check_code payload.method payload user code
    if code_valid
        then (do confirm_email payload.method user; issue_token_pair user.id payload.device_id true)
        else (do
          emit (audit (some user.id) "auth.device_verification_failed" none)
          raise unauthorized)
