-- ===== src/Email/Mails.antt =====
-- What the mails of src/email/email.processor.ts share: their surroundings, what Resend is asked to
-- send, and the first name in a greeting. A date is a number, and its text in the time zone of the
-- server is a parameter.
pub mod Accounts
pub mod Contact
pub mod Prospects
pub mod Billing
use Prim.Native.String.{String, ◌++◌}
use text.Mathlib.Text.{◌==◌ as str_eq}
use conference_contact.Prelude.{
  ℕ, ◌/◌, ◌%◌, Bool, true, Option, none, some, List, [], ◌∷◌, map, ◌==◌, if◌then◌else◌,
}
use conference_contact.Numerals.{print_int}
use conference_contact.Email.Escape.{escape_html, sanitize_for_subject}
use conference_contact.Email.Words.{first_word, truthy, encode_uri_component}

-- FRONTEND_URL, SUPPORT_EMAIL, and `toLocaleDateString('en-US', …)`
pub record EmailEnv : Type 0 where
  pub frontend_url : String
  pub support_email : String
  pub date_label : ℕ → String

-- what Resend is asked to send
pub record Mail : Type 0 where
  pub to : String
  pub subject : String
  pub html : String
  pub reply_to : Option String

-- `fullName.trim().split(/\s+/)[0] || 'there'`, escaped
unfoldable pub first_name : String → String
unfolding first_word
first_name full_name =
    escape_html (if str_eq (first_word full_name) "" then "there" else first_word full_name)
