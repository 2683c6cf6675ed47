-- ===== src/Schema/Admin.antt =====
-- The invitations, consents, directory and contact tables of prisma/schema.prisma.
use conference_contact.Prelude.{ℕ, String, Bool, Option}
use conference_contact.Schema.Accounts.{Role}

pub data InviteStatus : Type 0 where
  pending accepted : InviteStatus

pub record AdminAccessInvite : Type 0 where
  pub id : ℕ
  pub invited_by_user_id : ℕ
  pub email : String
  pub role : Role
  pub grant_directory_access : Bool
  pub grant_lead_finder_access : Bool
  pub status : InviteStatus
  pub created_at : ℕ
  pub accepted_at : Option ℕ

pub record Invite : Type 0 where
  pub id : ℕ
  pub inviter_id : ℕ
  pub email : String
  pub status : InviteStatus
  pub created_at : ℕ
  pub accepted_at : Option ℕ

pub data ConsentDocumentType : Type 0 where
  terms privacy : ConsentDocumentType

pub record ConsentRecord : Type 0 where
  pub user_id : ℕ
  pub document_type : ConsentDocumentType
  pub accepted_at : ℕ

-- A row of the directory; the company type is one of an enum, so a number.
pub record Lead : Type 0 where
  pub id : ℕ
  pub name : String
  pub title : Option String
  pub company : Option String
  pub website : Option String
  pub linkedin : Option String
  pub app_link : Option String
  pub email : Option String
  pub phone : Option String
  pub company_type : Option ℕ
  pub likely_to_attend : String
  pub approved : Bool
  pub submitted_by_user_id : Option ℕ
  pub created_at : ℕ

pub record ContactMessage : Type 0 where
  pub id : ℕ
  pub name : String
  pub email : String
  pub reason : ℕ
  pub message : String
  pub resolved : Bool
  pub created_at : ℕ
