-- ===== src/Email/Payload.antt =====
-- What lies on the queue of src/email/email.service.ts, the name and the data of a job as Redis keeps
-- them, and how `process` of src/email/email.processor.ts tells the jobs apart and takes the data.
use text.Mathlib.Text.{◌==◌ as str_eq}
use conference_contact.Prelude.{ℕ, String, Option, none, some, List, [], ◌∷◌, if◌then◌else◌}
use conference_contact.Email.Jobs.{EmailJob, process_email}
use conference_contact.Email.Jobs
use conference_contact.Email.Mails.{EmailEnv, Mail}

-- `string | number`; a date is the text that `toISOString` makes of a time.
pub data Datum : Type 0 where
  chars : String → Datum
  number iso_date : ℕ → Datum

abbrev pub Payload : Type 0
Payload = List (String × Datum)

pub record QueuedJob : Type 0 where
  pub name : String
  pub payload : Payload

abbrev find_key : String → Payload → Option Datum
find_key key [] = none
find_key key ((k, value) ∷ rest) =
    let later = find_key key rest in if str_eq k key then some value else later

-- What a case of the worker makes of the value of a key. It takes the value as it is cast, and `none`
-- stands for a key that is not there or has another kind of value, of which the source makes no use.
abbrev with_text : String → Payload → (String → Option EmailJob) → Option EmailJob
with_text key payload next = elim (find_key key payload) [
  | none ↦ none
  | some (chars value) ↦ next value
  | some (number n) ↦ none
  | some (iso_date t) ↦ none
]

abbrev with_number : String → Payload → (ℕ → Option EmailJob) → Option EmailJob
with_number key payload next = elim (find_key key payload) [
  | none ↦ none
  | some (chars value) ↦ none
  | some (number n) ↦ next n
  | some (iso_date t) ↦ none
]

abbrev with_date : String → Payload → (ℕ → Option EmailJob) → Option EmailJob
with_date key payload next = elim (find_key key payload) [
  | none ↦ none
  | some (chars value) ↦ none
  | some (number n) ↦ none
  | some (iso_date t) ↦ next t
]

abbrev with_two : String → String → Payload → (String → String → EmailJob) → Option EmailJob
with_two key key' payload next =
    with_text key payload (λ a. with_text key' payload (λ b. some (next a b)))

abbrev with_three :
    String
    → String
    → String
    → Payload
    → (String → String → String → Option EmailJob)
    → Option EmailJob
with_three key key' key'' payload next =
    with_text key payload (λ a. with_text key' payload (λ b. with_text key'' payload (next a b)))

-- The `switch (job.name)` of the worker, and the keys that each case takes.
unfoldable pub read_job : QueuedJob → Option EmailJob
read_job job =
    let data_of = job.payload in
    if str_eq job.name "welcome"
    then with_two "to" "fullName" data_of Jobs.welcome
    else if str_eq job.name "verification"
    then with_two "to" "token" data_of Jobs.verification
    else if str_eq job.name "password-reset"
    then with_two "to" "token" data_of Jobs.password_reset
    else if str_eq job.name "device-code"
    then with_two "to" "code" data_of Jobs.device_code
    else if str_eq job.name "contact-form"
    then with_three "name" "fromEmail" "reason" data_of (λ name from_email reason.
      with_text "message" data_of
        (λ message. some (Jobs.contact_form name from_email reason message)))
    else if str_eq job.name "contact-reply"
    then with_three "to" "name" "originalMessage" data_of (λ to name original.
      with_text "replyMessage" data_of (λ reply. some (Jobs.contact_reply to name original reply)))
    else if str_eq job.name "invite"
    then with_two "to" "inviterName" data_of Jobs.invite
    else if str_eq job.name "admin-access-invite"
    then with_three "to" "grantsDirectoryAccess" "grantsLeadFinderAccess" data_of
        (λ to directory lead_finder. some (Jobs.admin_access_invite to directory lead_finder))
    else if str_eq job.name "prospect-pitch-intro"
    then with_two "to" "fullName" data_of Jobs.prospect_pitch_intro
    else if str_eq job.name "prospect-pitch-value"
    then with_two "to" "fullName" data_of Jobs.prospect_pitch_value
    else if str_eq job.name "prospect-pitch-urgency"
    then with_two "to" "fullName" data_of Jobs.prospect_pitch_urgency
    else if str_eq job.name "subscription-confirmed"
    then with_text "to" data_of (λ to. with_text "productLabel" data_of (λ label.
      with_number "amountCents" data_of (λ cents.
        with_date "renewsAt" data_of
          (λ renews_at. some (Jobs.subscription_confirmed to label cents renews_at)))))
    else if str_eq job.name "renewal-reminder"
    then with_text "to" data_of (λ to. with_text "productLabel" data_of (λ label.
      with_date "renewalDate" data_of (λ date.
        with_number "amountCents" data_of
          (λ cents. some (Jobs.renewal_reminder to label date cents)))))
    else if str_eq job.name "payment-failed"
    then with_text "to" data_of (λ to. with_text "productLabel" data_of (λ label.
      with_number "gracePeriodDays" data_of (λ days. some (Jobs.payment_failed to label days))))
    else if str_eq job.name "cancellation-scheduled"
    then with_text "to" data_of (λ to. with_text "productLabel" data_of (λ label.
      with_date "accessUntil" data_of (λ date. some (Jobs.cancellation_scheduled to label date))))
    else some Jobs.unknown

-- the mail that the worker makes of a job of the queue
unfoldable pub process_job : EmailEnv → QueuedJob → Option Mail
unfolding process_email read_job
process_job env job = elim (read_job job) [ none ↦ none | some known ↦ process_email env known ]
