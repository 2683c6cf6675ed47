-- ===== src/Schema/Accounts.antt =====
-- The account tables of prisma/schema.prisma: users, devices, sessions,
-- links by email. Ids and hashes are only
-- compared, so they are numbers; a date is its number of milliseconds.
use conference_contact.Prelude.{ℕ, String, Bool, true, false, Option}

pub data Role : Type 0 where
  user premium admin super_admin : Role

pub data AccountStatus : Type 0 where
  active suspended deleted : AccountStatus

pub record User : Type 0 where
  pub id : ℕ
  pub email : String
  pub full_name : String
  pub password_hash : ℕ
  pub role : Role
  pub status : AccountStatus
  pub admin_granted_directory_access : Bool
  pub admin_granted_lead_finder_access : Bool
  pub stripe_customer_id : Option ℕ
  pub email_verified_at : Option ℕ
  pub two_factor_enabled : Bool
  pub two_factor_secret : Option ℕ
  pub failed_login_count : ℕ
  pub locked_until : Option ℕ
  pub last_login_at : Option ℕ
  pub deleted_at : Option ℕ
  pub lead_finder_credits : ℕ
  pub created_at : ℕ

pub record Device : Type 0 where
  pub id : ℕ
  pub user_id : ℕ
  pub fingerprint : ℕ
  pub is_trusted : Bool
  pub trusted_at : Option ℕ
  pub last_seen_at : ℕ

pub record Session : Type 0 where
  pub id : ℕ
  pub user_id : ℕ
  pub device_id : Option ℕ
  pub token_hash : ℕ
  pub country : Option String
  pub risk_score : ℕ
  pub replaced_by_token_id : Option ℕ
  pub created_at : ℕ
  pub last_activity_at : ℕ
  pub expires_at : ℕ
  pub revoked_at : Option ℕ

pub data TokenPurpose : Type 0 where
  email_verification password_reset : TokenPurpose

pub record VerificationToken : Type 0 where
  pub id : ℕ
  pub user_id : ℕ
  pub token_hash : ℕ
  pub purpose : TokenPurpose
  pub expires_at : ℕ
  pub used_at : Option ℕ

-- `role === 'ADMIN' || role === 'SUPER_ADMIN'`
abbrev pub is_admin : Role → Bool
is_admin admin = true
is_admin super_admin = true
is_admin _ = false

abbrev pub is_active_account : AccountStatus → Bool
is_active_account active = true
is_active_account _ = false
