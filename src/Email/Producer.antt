-- ===== src/Email/Producer.antt =====
-- src/email/email.service.ts: what its methods put on the two queues of mail. A method never throws:
-- a call that Redis does not take is logged. Times are numbers; the links that it logs in development
-- are left out.
pub mod Laws
use Prim.Native.Char.{Char, code}
use Prim.Native.String.{[], ◌∷◌, ◌++◌ as join}
use conference_contact.Prelude.{
  ℕ, zero, suc, ◌+◌, String, Bool, true, false, List, [], ◌∷◌, ◌++◌, length, take, drop, ◌==◌,
  if◌then◌else◌,
}
use conference_contact.Admin.{PitchTemplate, intro, value, urgency}
use conference_contact.Email.Payload.{QueuedJob, Payload, chars, number, iso_date}

-- A call of a method, with its arguments.
pub data EmailCall : Type 0 where
  send_welcome_email : String → String → EmailCall
  send_verification_email : String → String → EmailCall
  send_password_reset_email : String → String → EmailCall
  send_device_verification_code : String → String → EmailCall
  send_contact_form_message : String → String → String → String → EmailCall
  send_contact_message_reply : String → String → String → String → EmailCall
  send_subscription_confirmed : String → String → ℕ → ℕ → EmailCall
  send_admin_access_invite : String → Bool → Bool → EmailCall
  send_prospect_pitch : String → String → PitchTemplate → EmailCall
  send_invite_email : String → String → EmailCall
  send_renewal_reminder : String → String → ℕ → ℕ → EmailCall
  send_payment_failed : String → String → ℕ → EmailCall
  send_cancellation_scheduled : String → String → ℕ → EmailCall

-- `grants ? 'true' : 'false'`
abbrev flag : Bool → String
flag true = "true"
flag false = "false"

-- the letter of the second text at the place of this one in the first
lower_char : String → String → Char → Char
lower_char [] lower c = c
lower_char (a ∷ upper) [] c = c
lower_char (a ∷ upper) (b ∷ lower) c =
    let later = lower_char upper lower c in if code a == code c then b else later

-- `toLowerCase` of a text of ASCII characters
unfoldable pub to_lower_case : String → String
unfolding lower_char
to_lower_case [] = []
to_lower_case (c ∷ s) =
    lower_char "ABCDEFGHIJKLMNOPQRSTUVWXYZ" "abcdefghijklmnopqrstuvwxyz" c ∷ to_lower_case s

abbrev template_name : PitchTemplate → String
template_name intro = "INTRO"
template_name value = "VALUE"
template_name urgency = "URGENCY"

-- `prospect-pitch-${template.toLowerCase()}`
unfoldable pub pitch_job_name : PitchTemplate → String
unfolding to_lower_case
pitch_job_name template = join "prospect-pitch-" (to_lower_case (template_name template))

abbrev queued : String → Payload → QueuedJob
queued name payload = record { name = name; payload = payload }

-- the name and the data of the job
unfoldable pub job_of : EmailCall → QueuedJob
unfolding pitch_job_name
job_of (send_welcome_email to full_name) =
    queued "welcome" (("to", chars to) ∷ ("fullName", chars full_name) ∷ [])
job_of (send_verification_email to token) =
    queued "verification" (("to", chars to) ∷ ("token", chars token) ∷ [])
job_of (send_password_reset_email to token) =
    queued "password-reset" (("to", chars to) ∷ ("token", chars token) ∷ [])
job_of (send_device_verification_code to digits) =
    queued "device-code" (("to", chars to) ∷ ("code", chars digits) ∷ [])
job_of (send_contact_form_message name from_email reason message) = queued "contact-form" (
    ("name", chars name)
    ∷ ("fromEmail", chars from_email)
    ∷ ("reason", chars reason)
    ∷ ("message", chars message)
    ∷ [])
job_of (send_contact_message_reply to name original_message reply_message) =
    queued "contact-reply" (
      ("to", chars to)
      ∷ ("name", chars name)
      ∷ ("originalMessage", chars original_message)
      ∷ ("replyMessage", chars reply_message)
      ∷ [])
job_of (send_subscription_confirmed to product_label amount_cents renews_at) =
    queued "subscription-confirmed" (
      ("to", chars to)
      ∷ ("productLabel", chars product_label)
      ∷ ("amountCents", number amount_cents)
      ∷ ("renewsAt", iso_date renews_at)
      ∷ [])
job_of (send_admin_access_invite to directory lead_finder) = queued "admin-access-invite" (
    ("to", chars to)
    ∷ ("grantsDirectoryAccess", chars (flag directory))
    ∷ ("grantsLeadFinderAccess", chars (flag lead_finder))
    ∷ [])
job_of (send_prospect_pitch to full_name template) =
    queued (pitch_job_name template) (("to", chars to) ∷ ("fullName", chars full_name) ∷ [])
job_of (send_invite_email to inviter_name) =
    queued "invite" (("to", chars to) ∷ ("inviterName", chars inviter_name) ∷ [])
job_of (send_renewal_reminder to product_label renewal_date amount_cents) =
    queued "renewal-reminder" (
      ("to", chars to)
      ∷ ("productLabel", chars product_label)
      ∷ ("renewalDate", iso_date renewal_date)
      ∷ ("amountCents", number amount_cents)
      ∷ [])
job_of (send_payment_failed to product_label grace_period_days) = queued "payment-failed" (
    ("to", chars to)
    ∷ ("productLabel", chars product_label)
    ∷ ("gracePeriodDays", number grace_period_days)
    ∷ [])
job_of (send_cancellation_scheduled to product_label access_until) =
    queued "cancellation-scheduled" (
      ("to", chars to)
      ∷ ("productLabel", chars product_label)
      ∷ ("accessUntil", iso_date access_until)
      ∷ [])

-- `enqueue`; whether Redis takes the job is an argument
unfoldable pub enqueue : Bool → QueuedJob → List QueuedJob → List QueuedJob
enqueue taken job queue = if taken then queue ++ job ∷ [] else queue

unfoldable pub send : Bool → EmailCall → List QueuedJob → List QueuedJob
unfolding enqueue job_of
send taken call queue = enqueue taken (job_of call) queue

abbrev chunk_size : ℕ
chunk_size = 500

-- The loop of `enqueueBulk`; whether Redis takes the chunk that starts at an index is an argument.
unfoldable pub enqueue_chunks : ℕ → (ℕ → Bool) → ℕ → List String → List String → List String
enqueue_chunks zero taken i emails queue = queue
enqueue_chunks (suc fuel) taken i [] queue = queue
enqueue_chunks (suc fuel) taken i (e ∷ es) queue =
    enqueue_chunks fuel taken (i + chunk_size) (drop chunk_size (e ∷ es))
      (if taken i then queue ++ take chunk_size (e ∷ es) else queue)

-- one round for each address is enough, since each chunk has one at least
unfoldable pub send_prospect_invite_bulk : (ℕ → Bool) → List String → List String → List String
unfolding enqueue_chunks
send_prospect_invite_bulk taken emails queue = enqueue_chunks (length emails) taken 0 emails queue

unfoldable pub send_prospect_invite : Bool → String → List String → List String
unfolding enqueue_chunks
send_prospect_invite taken to queue = enqueue_chunks 1 (λ i. taken) 0 (to ∷ []) queue
