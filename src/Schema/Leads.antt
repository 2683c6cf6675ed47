-- ===== src/Schema/Leads.antt =====
-- The Lead Finder and campaign tables of prisma/schema.prisma.
use conference_contact.Prelude.{ℕ, String, Bool, Option}

pub data JobStatus : Type 0 where
  running completed failed cancelled : JobStatus

pub data ResultStatus : Type 0 where
  pending enriched failed skipped : ResultStatus

pub record LeadSearchJob : Type 0 where
  pub id : ℕ
  pub user_id : ℕ
  pub status : JobStatus
  pub has_filters : Bool
  pub created_at : ℕ

-- a user's own triage of a result
pub data ReviewStatus : Type 0 where
  new approved skipped : ReviewStatus

pub record LeadSearchResult : Type 0 where
  pub id : ℕ
  pub job_id : ℕ
  pub apollo_person_id : ℕ
  pub name : String
  pub title : Option String
  pub company : Option String
  pub linkedin : Option String
  pub email : Option String
  pub status : ResultStatus
  pub review_status : ReviewStatus

pub data ProspectStatus : Type 0 where
  pending sent skipped_existing_user skipped_unsubscribed bounced complained : ProspectStatus

pub record Prospect : Type 0 where
  pub id : ℕ
  pub email : String
  pub status : ProspectStatus
  pub uploaded_by_user_id : Option ℕ
  pub created_at : ℕ
  pub sent_at : Option ℕ

pub record CampaignSettings : Type 0 where
  pub daily_cap : ℕ
  pub paused : Bool
  pub email_subject : Option String
  pub email_heading : Option String
  pub email_body : Option String
  pub email_cta_label : Option String
  pub email_footnote : Option String
  pub email_mailing_address : Option String
