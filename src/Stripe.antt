-- ===== src/Stripe.antt =====
-- What the billing services exchange with Stripe: the objects of its events, and the calls of its
-- API as a record of functions, in which `none` and `false` are a call that throws.
use conference_contact.Prelude.{
  ℕ, ◌*◌, String, Bool, false, Option, none, some, ◌==◌, if◌then◌else◌,
}
use text.Mathlib.Text.{◌==◌ as str_eq}

pub data StripeStatus : Type 0 where
  trialing active past_due unpaid paused canceled incomplete incomplete_expired : StripeStatus

-- The metadata that the checkouts stamp; an absent or empty entry is `none`.
pub record Metadata : Type 0 where
  pub user_id : Option ℕ
  pub plan_id : Option ℕ
  pub tier_id : Option ℕ
  pub kind : Option String
  pub credits : Option String

-- `current_period_start` and `current_period_end` are those of the first item. Times in seconds.
pub record StripeSubscription : Type 0 where
  pub id : ℕ
  pub customer : ℕ
  pub status : StripeStatus
  pub current_period_start : ℕ
  pub current_period_end : ℕ
  pub cancel_at_period_end : Bool
  pub trial_end : Option ℕ
  pub metadata : Metadata

pub data SessionMode : Type 0 where
  payment subscription setup : SessionMode

pub record CheckoutSession : Type 0 where
  pub id : ℕ
  pub mode : SessionMode
  pub subscription : Option ℕ
  pub amount_total : Option ℕ
  pub metadata : Metadata

-- `subscription` and `metadata` are those of `parent.subscription_details`.
pub record StripeInvoice : Type 0 where
  pub id : ℕ
  pub amount_paid : ℕ
  pub amount_due : ℕ
  pub currency : String
  pub invoice_pdf : Option String
  pub subscription : Option ℕ
  pub metadata : Metadata

-- The event types that either service tells apart; `subscription_changed` is each of
-- customer.subscription.created, .updated and .resumed.
pub data Event : Type 0 where
  checkout_completed : CheckoutSession → Event
  subscription_changed : StripeSubscription → Event
  subscription_deleted : ℕ → Event
  invoice_paid invoice_payment_failed : StripeInvoice → Event
  other_event : Event

pub record StripeApi : Type 0 where
  pub retrieve : ℕ → Option StripeSubscription
  pub cancel : ℕ → Bool
  pub set_cancel_at_period_end : ℕ → Bool → Bool
  pub create_customer : ℕ → Option ℕ
  -- the price and the quantity; `some none` is a session with no URL
  pub create_session : ℕ → ℕ → Option (Option String)
  pub create_portal : ℕ → Option String

-- What a handler runs in: the time, an id that no row has yet, the configuration, and Stripe.
pub record Env : Type 0 where
  pub now : ℕ
  pub fresh : ℕ
  pub grace_period_days : ℕ
  pub stripe : StripeApi

-- `metadata?.kind === 'lead_finder_tier'`
unfoldable pub is_lead_finder_tier : Metadata → Bool
is_lead_finder_tier m = elim m.kind [ none ↦ false | some k ↦ str_eq k "lead_finder_tier" ]

-- `trial_end ? new Date(trial_end * 1000) : null`
abbrev pub date_or_null : Option ℕ → Option ℕ
date_or_null none = none
date_or_null (some t) = if t == 0 then none else some (t * 1000)
