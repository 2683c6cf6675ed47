-- ===== src/Campaign.antt =====
-- The queue of the cold outreach, of src/prospect-campaign/prospect-campaign.service.ts: the
-- settings, the template and the statistics. An email is one that `trim().toLowerCase()` has
-- returned.
pub mod Text
pub mod Upload
pub mod Drip
pub mod Unsubscribe
pub mod Runs
pub mod Webhook
use conference_contact.Prelude.{
  ℕ, ◌+◌, String, Bool, true, false, not, ◌&&◌, Option, none, some, List, ltb, ◌==◌, count_where,
  update_where, or_else, if◌then◌else◌,
}
use text.Mathlib.Text.{◌==◌ as str_eq}
use conference_contact.Schema.{Db, audit}
use conference_contact.Schema.Leads.{
  Prospect, ProspectStatus, pending, sent, skipped_existing_user, skipped_unsubscribed, bounced,
  complained, CampaignSettings,
}
use conference_contact.Action.{Action, bad_request, pure, raise_if, gets, modify, emit, ◌>>=◌, ◌>>◌}
use conference_contact.Campaign.Text.{trim, js_length}
use conference_contact.Prelude.Sets.{set_add}

-- The time, the ids of new rows, `isEmail` of class-validator, and COMPANY_MAILING_ADDRESS.
pub record CampaignEnv : Type 0 where
  pub now : ℕ
  pub fresh : ℕ
  pub is_email : String → Bool
  pub default_mailing_address : String

-- The row that `create: { id: SETTINGS_ID }` makes: the defaults of prisma/schema.prisma.
abbrev pub default_settings : CampaignSettings
default_settings = record {
  daily_cap = 25;
  paused = false;
  email_subject = none;
  email_heading = none;
  email_body = none;
  email_cta_label = none;
  email_footnote = none;
  email_mailing_address = none;
}

-- the settings in force
abbrev pub settings_of : Db → CampaignSettings
settings_of db = or_else db.campaign_settings default_settings

-- `upsert` of the row with the fixed id
unfoldable pub upsert_settings : (CampaignSettings → CampaignSettings) → Action CampaignSettings
unfolding modify gets ◌>>=◌
upsert_settings f = do
  modify (λ db. record db { campaign_settings = some (f (settings_of db)) })
  gets settings_of

unfoldable pub get_or_create_settings : Action CampaignSettings
unfolding upsert_settings
get_or_create_settings = upsert_settings (λ s. s)

abbrev pub status_eq : ProspectStatus → ProspectStatus → Bool
status_eq pending pending = true
status_eq sent sent = true
status_eq skipped_existing_user skipped_existing_user = true
status_eq skipped_unsubscribed skipped_unsubscribed = true
status_eq bounced bounced = true
status_eq complained complained = true
status_eq _ _ = false

-- `CampaignStats`, the rate as the fraction that it is
pub record CampaignStats : Type 0 where
  pub pending : ℕ
  pub sent : ℕ
  pub skipped_existing_user : ℕ
  pub skipped_unsubscribed : ℕ
  pub bounced : ℕ
  pub complained : ℕ
  pub total : ℕ
  pub bounce_complaint_rate : ℕ × ℕ
  pub daily_cap : ℕ
  pub paused : Bool

-- one group of `groupBy({ by: ['status'], _count: true })`, 0 for a status without rows
abbrev pub by_status : ProspectStatus → Db → ℕ
by_status status db = count_where (λ r. status_eq r.status status) db.prospects

-- `attempted > 0 ? (bounced + complained) / attempted : 0`
abbrev rate : ℕ → ℕ → ℕ × ℕ
rate failed attempted = if ltb 0 attempted then (failed, attempted) else (0, 1)

abbrev pub stats : CampaignSettings → Db → CampaignStats
stats settings db =
    let failed = by_status bounced db + by_status complained db in
    let attempted = by_status sent db + by_status bounced db + by_status complained db in
    record {
      pending = by_status pending db;
      sent = by_status sent db;
      skipped_existing_user = by_status skipped_existing_user db;
      skipped_unsubscribed = by_status skipped_unsubscribed db;
      bounced = by_status bounced db;
      complained = by_status complained db;
      total =
          by_status pending db
          + by_status sent db
          + by_status skipped_existing_user db
          + by_status skipped_unsubscribed db
          + by_status bounced db
          + by_status complained db;
      bounce_complaint_rate = rate failed attempted;
      daily_cap = settings.daily_cap;
      paused = settings.paused;
    }

unfoldable pub get_stats : Action CampaignStats
unfolding get_or_create_settings
get_stats = do settings ← get_or_create_settings; gets (stats settings)

-- `UpdateCampaignSettingsDto`
pub record SettingsDto : Type 0 where
  pub daily_cap : Option ℕ
  pub paused : Option Bool

abbrev pub with_settings : SettingsDto → CampaignSettings → CampaignSettings
with_settings dto s = record s {
  daily_cap = or_else dto.daily_cap s.daily_cap;
  paused = or_else dto.paused s.paused;
}

unfoldable pub update_settings : ℕ → SettingsDto → Action (ℕ × Bool)
unfolding upsert_settings
update_settings admin dto = do
  updated ← upsert_settings (with_settings dto)
  emit (audit (some admin) "admin.prospect_campaign_settings_updated" none)
  pure (updated.daily_cap, updated.paused)

pub record EmailTemplate : Type 0 where
  pub subject : String
  pub heading : String
  pub body : String
  pub cta_label : String
  pub footnote : String
  pub mailing_address : String

-- `UpdateEmailTemplateDto`
pub record TemplateDto : Type 0 where
  pub subject : Option String
  pub heading : Option String
  pub body : Option String
  pub cta_label : Option String
  pub footnote : Option String
  pub mailing_address : Option String

-- `...(value !== undefined && { column: value || null })`: what becomes of the column
abbrev pub override : Option String → Option String → Option String
override none column = column
override (some value) column = if js_length value == 0 then none else some value

abbrev pub with_template : TemplateDto → CampaignSettings → CampaignSettings
with_template dto s = record s {
  email_subject = override dto.subject s.email_subject;
  email_heading = override dto.heading s.email_heading;
  email_body = override dto.body s.email_body;
  email_cta_label = override dto.cta_label s.email_cta_label;
  email_footnote = override dto.footnote s.email_footnote;
  email_mailing_address = override dto.mailing_address s.email_mailing_address;
}

-- `value !== undefined && value !== '' && value.trim().length < 10`
abbrev pub too_short : Option String → Bool
too_short none = false
too_short (some value) = not (js_length value == 0) && ltb (js_length (trim value)) 10

abbrev pub template_of : String → CampaignSettings → EmailTemplate
template_of default_address s = record {
  subject = or_else s.email_subject "You've been invited to check out conference.contact";
  heading = or_else s.email_heading "Thought this might be useful";
  body =
      or_else s.email_body
        "A hand-verified directory of B2B conference contacts, with an AI tool that finds and enriches new leads live — take a look and see what’s inside.";
  cta_label = or_else s.email_cta_label "Take a look →";
  footnote =
      or_else s.email_footnote "No obligation — you can create a free account just to browse.";
  mailing_address = or_else s.email_mailing_address default_address;
}

module _ (env : CampaignEnv) where
  unfoldable pub get_email_template : Action EmailTemplate
  unfolding get_or_create_settings
  get_email_template = do
    settings ← get_or_create_settings
    pure (template_of env.default_mailing_address settings)

  unfoldable pub update_email_template : ℕ → TemplateDto → Action EmailTemplate
  unfolding upsert_settings get_email_template
  update_email_template admin dto = do
    raise_if (too_short dto.mailing_address) bad_request
    upsert_settings (with_template dto)
    emit (audit (some admin) "admin.prospect_campaign_template_updated" none)
    get_email_template

-- `emailSuppression.upsert`
unfoldable pub suppress : String → Action (Unit {0})
unfolding modify
suppress email = modify λ db. record db { suppressions = set_add email db.suppressions }

abbrev marked : ProspectStatus → Prospect → Prospect
marked status r = record r { status = status }

unfoldable pub suppress_and_update_status : String → ProspectStatus → Action (Unit {0})
unfolding suppress
suppress_and_update_status email status = do
  suppress email
  modify (λ db. record db {
    prospects =
        update_where (λ r. str_eq r.email email && status_eq r.status sent) (marked status)
          db.prospects;
  })

unfoldable pub mark_bounced : String → Action (Unit {0})
unfolding suppress_and_update_status
mark_bounced email = suppress_and_update_status email bounced

unfoldable pub mark_complained : String → Action (Unit {0})
unfolding suppress_and_update_status
mark_complained email = suppress_and_update_status email complained
