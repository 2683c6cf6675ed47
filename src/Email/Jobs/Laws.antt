-- ===== src/Email/Jobs/Laws.antt =====
-- The texts of users in a mail leave its tags alone.
use Prim.Native.String.{String}
use conference_contact.Prelude.{ℕ, Option, none, some, List, [], ◌≡◌}
use conference_contact.Email.Markup.{markup, markup-append, markup-escape_html}
use conference_contact.Email.Words.Laws.{markup-encode_uri_component}
use conference_contact.Email.Mails.{EmailEnv, Mail, first_name}
use conference_contact.Email.Jobs.{
  EmailJob, welcome, verification, password_reset, device_code, contact_form, contact_reply, invite,
  admin_access_invite, prospect_pitch_intro, prospect_pitch_value, prospect_pitch_urgency,
  subscription_confirmed, renewal_reminder, payment_failed, cancellation_scheduled, process_email,
}

-- Two jobs of the same kind, with the same numbers, dates, grants and login code, and with any
-- addresses, names, labels, messages and tokens.
pub data Alike : EmailJob → EmailJob → Type 0 where
  same_welcome :
      (to full_name to' full_name' : String) → Alike (welcome to full_name) (welcome to' full_name')
  same_verification :
      (to token to' token' : String) → Alike (verification to token) (verification to' token')
  same_password_reset :
      (to token to' token' : String) → Alike (password_reset to token) (password_reset to' token')
  same_device_code :
      (to to' : String) (code : String) → Alike (device_code to code) (device_code to' code)
  same_contact_form :
      (name from_email reason message name' from_email' reason' message' : String)
      → Alike
          (contact_form name from_email reason message)
          (contact_form name' from_email' reason' message')
  same_contact_reply :
      (to name original_message reply_message to' name' original_message' reply_message' : String)
      → Alike
          (contact_reply to name original_message reply_message)
          (contact_reply to' name' original_message' reply_message')
  same_invite :
      (to inviter_name to' inviter_name' : String)
      → Alike (invite to inviter_name) (invite to' inviter_name')
  same_admin_access_invite :
      (to to' : String) (grants_directory : String) (grants_lead_finder : String)
      → Alike
          (admin_access_invite to grants_directory grants_lead_finder)
          (admin_access_invite to' grants_directory grants_lead_finder)
  same_prospect_pitch_intro :
      (to full_name to' full_name' : String)
      → Alike (prospect_pitch_intro to full_name) (prospect_pitch_intro to' full_name')
  same_prospect_pitch_value :
      (to full_name to' full_name' : String)
      → Alike (prospect_pitch_value to full_name) (prospect_pitch_value to' full_name')
  same_prospect_pitch_urgency :
      (to full_name to' full_name' : String)
      → Alike (prospect_pitch_urgency to full_name) (prospect_pitch_urgency to' full_name')
  same_subscription_confirmed :
      (to product_label to' product_label' : String) (amount_cents : ℕ) (date : ℕ)
      → Alike
          (subscription_confirmed to product_label amount_cents date)
          (subscription_confirmed to' product_label' amount_cents date)
  same_renewal_reminder :
      (to product_label to' product_label' : String) (date : ℕ) (amount_cents : ℕ)
      → Alike
          (renewal_reminder to product_label date amount_cents)
          (renewal_reminder to' product_label' date amount_cents)
  same_payment_failed :
      (to product_label to' product_label' : String) (grace_period_days : ℕ)
      → Alike
          (payment_failed to product_label grace_period_days)
          (payment_failed to' product_label' grace_period_days)
  same_cancellation_scheduled :
      (to product_label to' product_label' : String) (date : ℕ)
      → Alike
          (cancellation_scheduled to product_label date)
          (cancellation_scheduled to' product_label' date)

-- The tags of the mail that a job sends.
abbrev pub tags : Option Mail → List ℕ
tags none = []
tags (some m) = markup m.html

markup-first_name : (s : String) → markup (first_name s) ≡ []
unfolding first_name
markup-first_name s = markup-escape_html _

ruleset texts = (markup-append, markup-escape_html, markup-encode_uri_component, markup-first_name)

-- Whatever names, addresses, messages, labels and tokens two jobs of the same kind hold, their mails
-- have the same tags: the same characters that open and close tags and attributes, in the same order.
pub tags-process_email :
    (env : EmailEnv) {j j' : EmailJob}
    → Alike j j'
    → tags (process_email env j) ≡ tags (process_email env j')
unfolding process_email
tags-process_email env (same_welcome _ _ _ _) = simp texts
tags-process_email env (same_verification _ _ _ _) = simp texts
tags-process_email env (same_password_reset _ _ _ _) = simp texts
tags-process_email env (same_device_code _ _ _) = simp texts
tags-process_email env (same_contact_form _ _ _ _ _ _ _ _) = simp texts
tags-process_email env (same_contact_reply _ _ _ _ _ _ _ _) = simp texts
tags-process_email env (same_invite _ _ _ _) = simp texts
tags-process_email env (same_admin_access_invite _ _ _ _) = simp texts
tags-process_email env (same_prospect_pitch_intro _ _ _ _) = simp texts
tags-process_email env (same_prospect_pitch_value _ _ _ _) = simp texts
tags-process_email env (same_prospect_pitch_urgency _ _ _ _) = simp texts
tags-process_email env (same_subscription_confirmed _ _ _ _ _ _) = simp texts
tags-process_email env (same_renewal_reminder _ _ _ _ _ _) = simp texts
tags-process_email env (same_payment_failed _ _ _ _ _) = simp texts
tags-process_email env (same_cancellation_scheduled _ _ _ _ _) = simp texts
