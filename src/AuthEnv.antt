-- ===== src/AuthEnv.antt =====
-- What the handlers of src/auth, src/users and src/sessions run in: the time, fresh ids and random
-- values, the configuration, and the third-party functions that they call: the hash of a token,
-- argon2, the one-time passwords, and the lookup of an address.
use conference_contact.Prelude.{ℕ, String, Bool, Option}

pub record AuthEnv : Type 0 where
  pub now : ℕ
  -- the id of the row that the handler creates
  pub fresh : ℕ
  -- what `generateOpaqueToken` and `generateNumericCode` return
  pub new_token : ℕ
  pub new_code : ℕ
  pub hash : ℕ → ℕ
  pub password_matches : ℕ → ℕ → Bool
  pub totp_valid : ℕ → ℕ → Bool
  pub country : Option String
  -- whether Redis answers
  pub redis_up : Bool
  pub max_attempts : ℕ
  pub lockout_minutes : ℕ
  pub refresh_expiry_days : ℕ
  -- MAX_TRUSTED_DEVICES, the cap on trusted devices and on concurrent sessions
  pub max_devices : ℕ
  pub access_token_ttl_seconds : ℕ
  pub risk_high_threshold : ℕ
