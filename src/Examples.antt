-- ===== src/Examples.antt =====
-- Concrete rows, environments and databases, at which the theorems are applied.
mod Accounts
mod Admins
mod Campaigns
mod Mails
mod Payments
mod Searches
use conference_contact.Prelude.{
  ℕ, String, Bool, true, false, Option, none, some, List, [], ◌∷◌, ◌==◌, ◌+◌,
}
use conference_contact.Schema.{Db}
use conference_contact.Schema.Accounts.{
  User, Session, VerificationToken, user, active, password_reset,
}
use conference_contact.Schema.Billing.{Plan, LeadFinderTier, Subscription, LeadFinderSubscription}
use conference_contact.Schema.Billing
use conference_contact.AuthEnv.{AuthEnv}
use conference_contact.Guards.{TokenPayload, access}
use conference_contact.Stripe.{
  Metadata, StripeSubscription, CheckoutSession, payment, StripeApi, Env, Event, checkout_completed,
}
use conference_contact.Stripe

abbrev pub ada : User
ada = record {
  id = 1;
  email = "ada@example.com";
  full_name = "Ada";
  password_hash = 7;
  role = user;
  status = active;
  admin_granted_directory_access = false;
  admin_granted_lead_finder_access = false;
  stripe_customer_id = none;
  email_verified_at = some 10;
  two_factor_enabled = false;
  two_factor_secret = none;
  failed_login_count = 3;
  locked_until = none;
  last_login_at = some 20;
  deleted_at = none;
  lead_finder_credits = 5;
  created_at = 0;
}

abbrev pub half_year : Plan
half_year = record {
  id = 1;
  name = "Half a year";
  slug = "half-year";
  stripe_price_id = 11;
  amount_cents = 5000;
  is_active = true;
}

abbrev pub starter : LeadFinderTier
starter = record {
  id = 1;
  name = "Starter";
  slug = "starter";
  credits = 100;
  stripe_price_id = some 12;
  amount_cents = 2900;
  recurring = true;
  is_active = true;
}

-- A subscription of Ada's, with the status, the start of the grace period and the age that matter.
abbrev pub row : ℕ → Billing.SubscriptionStatus → Option ℕ → ℕ → Subscription
row id status since created_at = record {
  id = id;
  user_id = 1;
  plan_id = 1;
  stripe_customer_id = 21;
  stripe_subscription_id = 30 + id;
  status = status;
  current_period_start = 0;
  current_period_end = 1000;
  cancel_at_period_end = false;
  trial_ends_at = none;
  past_due_since = since;
  renewal_reminder_sent_for_period_end = none;
  created_at = created_at;
}

abbrev pub tier_row : Billing.SubscriptionStatus → Option ℕ → LeadFinderSubscription
tier_row status since = record {
  id = 1;
  user_id = 1;
  tier_id = 1;
  stripe_customer_id = 21;
  stripe_subscription_id = 41;
  status = status;
  current_period_start = 0;
  current_period_end = 1000;
  cancel_at_period_end = false;
  past_due_since = since;
  renewal_reminder_sent_for_period_end = none;
  created_at = 5;
}

abbrev pub empty_db : Db
empty_db = record {
  users = ada ∷ [];
  devices = [];
  sessions = [];
  verification_tokens = [];
  plans = half_year ∷ [];
  credit_packs = [];
  tiers = starter ∷ [];
  subscriptions = [];
  lead_finder_subscriptions = [];
  invoices = [];
  credit_grants = [];
  jobs = [];
  results = [];
  prospects = [];
  suppressions = [];
  campaign_settings = none;
  access_invites = [];
  invites = [];
  consents = [];
  leads = [];
  contact_messages = [];
  revocations = [];
  counters = [];
  effects = [];
}

abbrev pub api : StripeApi
api = record {
  retrieve = λ id. none;
  cancel = λ id. true;
  set_cancel_at_period_end = λ id value. true;
  create_customer = λ user_id. some 21;
  create_session = λ price quantity. some (some "https://checkout.example/1");
  create_portal = λ customer. some "https://portal.example/1";
}

-- Ten days after time 0, with a week of grace.
abbrev pub billing_env : Env
billing_env = record { now = 864000000; fresh = 9; grace_period_days = 7; stripe = api }

abbrev pub auth_env : AuthEnv
auth_env = record {
  now = 1000;
  fresh = 9;
  new_token = 60;
  new_code = 4;
  hash = λ token. token;
  password_matches = λ stored given. stored == given;
  totp_valid = λ code secret. code == secret;
  country = none;
  redis_up = true;
  max_attempts = 5;
  lockout_minutes = 15;
  refresh_expiry_days = 30;
  max_devices = 1;
  access_token_ttl_seconds = 900;
  risk_high_threshold = 50;
}

abbrev pub ada_token : TokenPayload
ada_token = record { sub = 1; role = user; type = access; impersonated_by = none }

abbrev pub session : Session
session = record {
  id = 1;
  user_id = 1;
  device_id = none;
  token_hash = 50;
  country = none;
  risk_score = 0;
  replaced_by_token_id = none;
  created_at = 0;
  last_activity_at = 0;
  expires_at = 2000000;
  revoked_at = none;
}

abbrev pub reset_link : VerificationToken
reset_link = record {
  id = 1;
  user_id = 1;
  token_hash = 70;
  purpose = password_reset;
  expires_at = 5000;
  used_at = none;
}

-- The event of a checkout of fifty credits by Ada.
abbrev pub pack_bought : Event
pack_bought = checkout_completed (record {
  id = 80;
  mode = payment;
  subscription = none;
  amount_total = some 4900;
  metadata = record {
    user_id = some 1;
    plan_id = none;
    tier_id = none;
    kind = none;
    credits = some "50";
  };
})
