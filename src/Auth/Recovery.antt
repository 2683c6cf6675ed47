-- ===== src/Auth/Recovery.antt =====
-- The links by email, the second factor and the erasure of an account, of
-- src/auth/auth.service.ts. A password is given by its hash where it is stored.
pub mod Laws
use conference_contact.Prelude.{
  ℕ, ◌+◌, ◌*◌, String, Bool, true, false, not, ◌&&◌, Option, none, some, List, [], ◌∷◌, ◌++◌, ◌==◌,
  ltb, find_first, update_where, is_some, if◌then◌else◌,
}
use conference_contact.Schema.{Db, mail, audit}
use conference_contact.Schema.Accounts.{
  User, Session, VerificationToken, TokenPurpose, email_verification, password_reset, deleted,
}
use conference_contact.Schema.Billing.{Subscription, canceled}
use conference_contact.Action.{
  Action, bad_request, unauthorized, stripe_failure, pure, raise, raise_if, gets, or_raise, skip,
  modify, emit, ◌>>=◌, ◌>>◌,
}
use conference_contact.AuthEnv.{AuthEnv}
use conference_contact.Guards.{find_user, live_filter}
use conference_contact.Numerals.{print_int}
use conference_contact.Revocation.{revoke_user}
use conference_contact.Sessions.{revoke_all_for_user}
use conference_contact.Users.{
  find_by_email, update_user, mark_email_verified, update_password_hash, set_two_factor_secret,
  enable_two_factor, disable_two_factor,
}

abbrev pub expiry_hours : TokenPurpose → ℕ
expiry_hours email_verification = 24
expiry_hours password_reset = 1

abbrev pub purpose_eq : TokenPurpose → TokenPurpose → Bool
purpose_eq email_verification email_verification = true
purpose_eq password_reset password_reset = true
purpose_eq _ _ = false

abbrev link_template : TokenPurpose → String
link_template email_verification = "verification"
link_template password_reset = "password-reset"

-- `where: { userId, purpose, usedAt: null }`
abbrev pub unused_filter : ℕ → TokenPurpose → VerificationToken → Bool
unused_filter user_id purpose t =
    t.user_id == user_id && (purpose_eq t.purpose purpose && not (is_some t.used_at))

module _ (env : AuthEnv) where
  abbrev pub used_now : VerificationToken → VerificationToken
  used_now t = record t { used_at = some env.now }

  unfoldable pub issue_verification_token : ℕ → String → TokenPurpose → Action (Unit {0})
  issue_verification_token user_id email purpose = do
    modify (λ db. record db {
      verification_tokens =
          update_where (unused_filter user_id purpose) used_now db.verification_tokens;
    })
    modify (λ db. record db {
      verification_tokens =
          db.verification_tokens
          ++ record {
            id = env.fresh;
            user_id = user_id;
            token_hash = env.hash env.new_token;
            purpose = purpose;
            expires_at = env.now + expiry_hours purpose * 3600000;
            used_at = none;
          }
            ∷ [];
    })
    emit (mail (link_template purpose) email)

  unfoldable pub consume_verification_token : ℕ → TokenPurpose → Action VerificationToken
  consume_verification_token raw_token purpose = do
    found ← gets (λ db. find_first (λ t. t.token_hash == env.hash raw_token) db.verification_tokens)
    t ← or_raise found bad_request
    raise_if (not (purpose_eq t.purpose purpose)) bad_request
    raise_if (is_some t.used_at) bad_request
    raise_if (ltb t.expires_at env.now) bad_request
    modify (λ db. record db {
      verification_tokens = update_where (λ r. r.id == t.id) used_now db.verification_tokens;
    })
    pure t

  unfoldable pub verify_email : ℕ → Action (Unit {0})
  unfolding consume_verification_token
  verify_email raw_token = do
    t ← consume_verification_token raw_token email_verification
    mark_email_verified env t.user_id
    emit (audit (some t.user_id) "auth.email_verified" none)

  abbrev request_reset : Option User → Action (Unit {0})
  request_reset none = skip
  request_reset (some u) = do
    issue_verification_token u.id u.email password_reset
    emit (audit (some u.id) "auth.password_reset_requested" none)

  unfoldable pub forgot_password : String → Action (Unit {0})
  unfolding issue_verification_token
  forgot_password email = do user ← gets (find_by_email email); request_reset user

  unfoldable pub reset_password : ℕ → ℕ → Action (Unit {0})
  unfolding consume_verification_token
  reset_password raw_token password_hash = do
    t ← consume_verification_token raw_token password_reset
    update_password_hash t.user_id password_hash
    revoke_all_for_user env t.user_id
    revoke_user env.redis_up env.access_token_ttl_seconds t.user_id env.now
    emit (audit (some t.user_id) "auth.password_reset_completed" none)

  -- the secret is the one that `generateTotpSecret` and `encrypt` return
  unfoldable pub start_2fa : ℕ → ℕ → Action ℕ
  start_2fa user_id secret = do
    user ← or_raise (← gets (find_user user_id)) unauthorized
    raise_if user.two_factor_enabled bad_request
    set_two_factor_secret user_id secret
    pure secret

  abbrev secret_of : Option User → Option ℕ
  secret_of none = none
  secret_of (some u) = u.two_factor_secret

  unfoldable pub confirm_2fa : ℕ → ℕ → Action (Unit {0})
  confirm_2fa user_id code = do
    user ← gets (find_user user_id)
    secret ← or_raise (secret_of user) bad_request
    raise_if (not (env.totp_valid code secret)) unauthorized
    enable_two_factor user_id
    emit (audit (some user_id) "auth.2fa_enabled" none)

  unfoldable pub disable_2fa : ℕ → ℕ → Action (Unit {0})
  disable_2fa user_id password = do
    user ← or_raise (← gets (find_user user_id)) unauthorized
    raise_if (not (env.password_matches user.password_hash password)) unauthorized
    disable_two_factor user_id
    emit (audit (some user_id) "auth.2fa_disabled" none)
