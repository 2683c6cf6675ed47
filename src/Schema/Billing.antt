-- ===== src/Schema/Billing.antt =====
-- The billing tables of prisma/schema.prisma.
use conference_contact.Prelude.{ℕ, String, Bool, true, false, Option}

pub data SubscriptionStatus : Type 0 where
  trialing active past_due canceled expired : SubscriptionStatus

pub data InvoiceStatus : Type 0 where
  paid open_invoice void uncollectible : InvoiceStatus

pub data CreditGrantSource : Type 0 where
  credit_pack_purchase lead_finder_tier_grant admin_adjustment : CreditGrantSource

pub record Plan : Type 0 where
  pub id : ℕ
  pub name : String
  pub slug : String
  pub stripe_price_id : ℕ
  pub amount_cents : ℕ
  pub is_active : Bool

pub record CreditPack : Type 0 where
  pub id : ℕ
  pub slug : String
  pub credits : ℕ
  pub stripe_price_id : ℕ
  pub is_active : Bool

pub record LeadFinderTier : Type 0 where
  pub id : ℕ
  pub name : String
  pub slug : String
  pub credits : ℕ
  pub stripe_price_id : Option ℕ
  pub amount_cents : ℕ
  pub recurring : Bool
  pub is_active : Bool

pub record Subscription : Type 0 where
  pub id : ℕ
  pub user_id : ℕ
  pub plan_id : ℕ
  pub stripe_customer_id : ℕ
  pub stripe_subscription_id : ℕ
  pub status : SubscriptionStatus
  pub current_period_start : ℕ
  pub current_period_end : ℕ
  pub cancel_at_period_end : Bool
  pub trial_ends_at : Option ℕ
  pub past_due_since : Option ℕ
  pub renewal_reminder_sent_for_period_end : Option ℕ
  pub created_at : ℕ

pub record LeadFinderSubscription : Type 0 where
  pub id : ℕ
  pub user_id : ℕ
  pub tier_id : ℕ
  pub stripe_customer_id : ℕ
  pub stripe_subscription_id : ℕ
  pub status : SubscriptionStatus
  pub current_period_start : ℕ
  pub current_period_end : ℕ
  pub cancel_at_period_end : Bool
  pub past_due_since : Option ℕ
  pub renewal_reminder_sent_for_period_end : Option ℕ
  pub created_at : ℕ

pub record Invoice : Type 0 where
  pub id : ℕ
  pub subscription_id : ℕ
  pub stripe_invoice_id : ℕ
  pub amount_cents : ℕ
  pub currency : String
  pub status : InvoiceStatus
  pub pdf_url : Option String
  pub paid_at : Option ℕ

pub record CreditGrant : Type 0 where
  pub id : ℕ
  pub user_id : ℕ
  pub credits : ℕ
  pub source : CreditGrantSource
  pub amount_paid_cents : Option ℕ
  pub stripe_reference : Option ℕ
  pub created_at : ℕ

-- `status: { in: ['ACTIVE', 'TRIALING', 'PAST_DUE'] }`, also the condition of the partial unique
-- index on each subscription table
abbrev pub is_live : SubscriptionStatus → Bool
is_live trialing = true
is_live active = true
is_live past_due = true
is_live _ = false

abbrev pub is_past_due : SubscriptionStatus → Bool
is_past_due past_due = true
is_past_due _ = false

abbrev pub is_canceled : SubscriptionStatus → Bool
is_canceled canceled = true
is_canceled _ = false

abbrev pub is_credit_pack_purchase : CreditGrantSource → Bool
is_credit_pack_purchase credit_pack_purchase = true
is_credit_pack_purchase _ = false
