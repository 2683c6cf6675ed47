-- ===== src/Schema.antt =====
-- The data model of prisma/schema.prisma, and what the handlers do outside the database.
pub mod Accounts
pub mod Admin
pub mod Billing
pub mod Leads
use conference_contact.Prelude.{ℕ, String, Bool, Option, List}
use Accounts.{User, Device, Session, VerificationToken}
use Admin.{AdminAccessInvite, Invite, ConsentRecord, Lead, ContactMessage}
use Billing.{
  Plan, CreditPack, LeadFinderTier, Subscription, LeadFinderSubscription, Invoice, CreditGrant,
}
use Leads.{LeadSearchJob, LeadSearchResult, Prospect, CampaignSettings}

-- A checkout session asked of Stripe: the mode (payment or subscription), what is sold, and the
-- metadata that comes back in the events.
pub record CheckoutRequest : Type 0 where
  pub is_payment : Bool
  pub customer : ℕ
  pub price : ℕ
  pub quantity : ℕ
  pub user_id : ℕ
  pub product_id : ℕ
  pub kind : Option String
  pub credits : Option String

-- What a handler does outside the tables: a call of Stripe, an email, a row of the audit log
-- (actor, action, target), a job of the search queue (the search, the user, the cap).
pub data Effect : Type 0 where
  stripe_checkout : CheckoutRequest → Effect
  stripe_cancel : ℕ → Effect
  stripe_cancel_at_period_end : ℕ → Bool → Effect
  mail : String → String → Effect
  audit : Option ℕ → String → Option ℕ → Effect
  search_job : ℕ → ℕ → ℕ → Effect

-- A key of Redis that a handler counts with: attempts at a login challenge, by the hash of the
-- challenge, and anonymous searches, by the address.
pub data CounterKey : Type 0 where
  login_challenge anonymous_search : ℕ → CounterKey

-- A key that expires is gone from `expires_at` on; `none` is a key without a time to live.
pub record Counter : Type 0 where
  pub key : CounterKey
  pub count : ℕ
  pub expires_at : Option ℕ

pub record Db : Type 0 where
  pub users : List User
  pub devices : List Device
  pub sessions : List Session
  pub verification_tokens : List VerificationToken
  pub plans : List Plan
  pub credit_packs : List CreditPack
  pub tiers : List LeadFinderTier
  pub subscriptions : List Subscription
  pub lead_finder_subscriptions : List LeadFinderSubscription
  pub invoices : List Invoice
  pub credit_grants : List CreditGrant
  pub jobs : List LeadSearchJob
  pub results : List LeadSearchResult
  pub prospects : List Prospect
  pub suppressions : List String
  -- the row with the fixed id, once there is one
  pub campaign_settings : Option CampaignSettings
  pub access_invites : List AdminAccessInvite
  pub invites : List Invite
  pub consents : List ConsentRecord
  pub leads : List Lead
  pub contact_messages : List ContactMessage
  -- the users with a `revoked:user:` key in Redis, and the time at which it expires
  pub revocations : List (ℕ × ℕ)
  pub counters : List Counter
  -- newest last
  pub effects : List Effect
