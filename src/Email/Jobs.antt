-- ===== src/Email/Jobs.antt =====
-- `process` of src/email/email.processor.ts: the mail for each job of its queue.
pub mod Laws
use conference_contact.Prelude.{ℕ, String, Option, none, some}
use conference_contact.Email.Mails.{EmailEnv, Mail}
use conference_contact.Email.Mails.Accounts.{
  welcome_mail, verification_mail, password_reset_mail, device_code_mail, invite_mail,
  admin_access_invite_mail,
}
use conference_contact.Email.Mails.Contact.{contact_form_mail, contact_reply_mail}
use conference_contact.Email.Mails.Prospects.{
  prospect_pitch_intro_mail, prospect_pitch_value_mail, prospect_pitch_urgency_mail,
}
use conference_contact.Email.Mails.Billing.{
  subscription_confirmed_mail, renewal_reminder_mail, payment_failed_mail,
  cancellation_scheduled_mail,
}

pub data EmailJob : Type 0 where
  welcome : String → String → EmailJob
  verification : String → String → EmailJob
  password_reset : String → String → EmailJob
  device_code : String → String → EmailJob
  contact_form : String → String → String → String → EmailJob
  contact_reply : String → String → String → String → EmailJob
  invite : String → String → EmailJob
  admin_access_invite : String → String → String → EmailJob
  prospect_pitch_intro : String → String → EmailJob
  prospect_pitch_value : String → String → EmailJob
  prospect_pitch_urgency : String → String → EmailJob
  subscription_confirmed : String → String → ℕ → ℕ → EmailJob
  renewal_reminder : String → String → ℕ → ℕ → EmailJob
  payment_failed : String → String → ℕ → EmailJob
  cancellation_scheduled : String → String → ℕ → EmailJob
  unknown : EmailJob

-- `none` is an unknown name, which is only logged
unfoldable pub process_email : EmailEnv → EmailJob → Option Mail
unfolding welcome_mail verification_mail password_reset_mail device_code_mail contact_form_mail
    contact_reply_mail invite_mail admin_access_invite_mail prospect_pitch_intro_mail
    prospect_pitch_value_mail prospect_pitch_urgency_mail subscription_confirmed_mail
    renewal_reminder_mail payment_failed_mail cancellation_scheduled_mail
process_email env (welcome to full_name) = some (welcome_mail env to full_name)
process_email env (verification to token) = some (verification_mail env to token)
process_email env (password_reset to token) = some (password_reset_mail env to token)
process_email env (device_code to code) = some (device_code_mail env to code)
process_email env (contact_form name from_email reason message) =
    some (contact_form_mail env name from_email reason message)
process_email env (contact_reply to name original_message reply_message) =
    some (contact_reply_mail env to name original_message reply_message)
process_email env (invite to inviter_name) = some (invite_mail env to inviter_name)
process_email env (admin_access_invite to grants_directory grants_lead_finder) =
    some (admin_access_invite_mail env to grants_directory grants_lead_finder)
process_email env (prospect_pitch_intro to full_name) =
    some (prospect_pitch_intro_mail env to full_name)
process_email env (prospect_pitch_value to full_name) =
    some (prospect_pitch_value_mail env to full_name)
process_email env (prospect_pitch_urgency to full_name) =
    some (prospect_pitch_urgency_mail env to full_name)
process_email env (subscription_confirmed to product_label amount_cents date) =
    some (subscription_confirmed_mail env to product_label amount_cents date)
process_email env (renewal_reminder to product_label date amount_cents) =
    some (renewal_reminder_mail env to product_label date amount_cents)
process_email env (payment_failed to product_label grace_period_days) =
    some (payment_failed_mail env to product_label grace_period_days)
process_email env (cancellation_scheduled to product_label date) =
    some (cancellation_scheduled_mail env to product_label date)
process_email env unknown = none
