-- ===== src/Auth.antt =====
-- src/auth/auth.service.ts: what its handlers return.
pub mod Register
pub mod Refresh
pub mod Login
pub mod Recovery
pub mod Erasure
pub mod Controller
use conference_contact.Prelude.{ℕ, none}
use conference_contact.Schema.Accounts.{User}
use conference_contact.Guards.{TokenPayload, access}

-- `TokenPair`: the payload of the access token that is signed, the raw refresh token, and when the
-- session expires
pub record TokenPair : Type 0 where
  pub access_token : TokenPayload
  pub refresh_token : ℕ
  pub refresh_token_expires_at : ℕ

-- what `signAccessToken` signs
abbrev pub access_payload : User → TokenPayload
access_payload u = record { sub = u.id; role = u.role; type = access; impersonated_by = none }
