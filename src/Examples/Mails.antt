-- ===== src/Examples/Mails.antt =====
-- The theorems on mails, at concrete inputs.
use Prim.Native.String.{◌++◌ as ◌++ˢ◌}
use conference_contact.Prelude.{refl, ◌≡◌, none, some, Bool, true, false, List, [], ◌∷◌, ◌==◌}
use conference_contact.Campaign.{default_settings}
use conference_contact.Campaign.Text.Laws.{Free}
use conference_contact.Email.Escape.{escape_html, is_control}
use conference_contact.Email.Escape.Laws.{in_double_quotes, read_text, read_text-escape_html}
use conference_contact.Email.Markup.{markup}
use conference_contact.Email.Mails.{EmailEnv}
use conference_contact.Email.Jobs.{contact_form, process_email}
use conference_contact.Email.Jobs.Laws.{same_contact_form, tags, tags-process_email}
use conference_contact.Email.Producer.{
  EmailCall, send_welcome_email, send_invite_email, send_admin_access_invite,
  send_contact_form_message, send_prospect_invite_bulk,
}
use conference_contact.Email.Producer.Laws.{mailed, send_each, mailed-send_each, enqueued_by_chunks}
use conference_contact.Email.Bulk.{BulkEnv, cold_invite}
use conference_contact.Email.Bulk.Laws.{cold_invite_contained}

read_text-escape_html_example :
    read_text in_double_quotes 0 (escape_html "<b>R&amp;D's \"lab\"</b>" ++ˢ "\" alt=\"x\">")
    ≡ ("<b>R&amp;D's \"lab\"</b>", "\" alt=\"x\">")
read_text-escape_html_example =
    read_text-escape_html in_double_quotes "<b>R&amp;D's \"lab\"</b>" "\"" " alt=\"x\">" refl

abbrev mail_env : EmailEnv
mail_env = record {
  frontend_url = "https://example.com";
  support_email = "help@example.com";
  date_label = λ date. "January 1, 2030";
}

tags-process_email_example :
    tags (process_email mail_env (contact_form "Ada" "ada@example.com" "BILLING" "Hello"))
    ≡ tags (
        process_email mail_env
          (contact_form "<b>Eve" "eve@example.com" "</p>" "<a href=\"https://example.org\">"))
tags-process_email_example = tags-process_email mail_env (
    same_contact_form "Ada" "ada@example.com" "BILLING" "Hello" "<b>Eve" "eve@example.com" "</p>"
      "<a href=\"https://example.org\">")

abbrev bulk_env : BulkEnv
bulk_env = record {
  frontend_url = "https://example.com";
  support_email = "help@example.com";
  default_mailing_address = "1 Example Street, Springfield";
  unsubscribe = record { hmac = λ secret text. text; secret = "secret" };
}

cold_invite_contained_example :
    (markup
        (cold_invite bulk_env
          (some (record default_settings { email_heading = some "<h1>" }))
          "ada@example.com").mail.html
      ≡ markup (cold_invite bulk_env none "<eve>@example.com").mail.html)
    × Free is_control
        (cold_invite bulk_env
          (some (record default_settings { email_heading = some "<h1>" }))
          "ada@example.com").mail.subject
cold_invite_contained_example =
    cold_invite_contained bulk_env (some (record default_settings { email_heading = some "<h1>" }))
      none "ada@example.com" "<eve>@example.com"

-- Redis does not take the second call.
abbrev calls : List (Bool × EmailCall)
calls =
    (true, send_welcome_email "ada@example.com" "Ada")
    ∷ (false, send_invite_email "bob@example.com" "Ada")
    ∷ (true, send_admin_access_invite "eve@example.com" true false)
    ∷ (true, send_contact_form_message "Ada" "ada@example.com" "BILLING" "Hello")
    ∷ []

mailed-send_each_example :
    mailed mail_env (send_each calls [])
    ≡ "ada@example.com" ∷ "eve@example.com" ∷ "help@example.com" ∷ []
mailed-send_each_example = mailed-send_each mail_env calls []

enqueued_by_chunks_example :
    send_prospect_invite_bulk
      (λ i. i == 0)
      ("ada@example.com" ∷ "bob@example.com" ∷ [])
      ("eve@example.com" ∷ [])
    ≡ "eve@example.com" ∷ "ada@example.com" ∷ "bob@example.com" ∷ []
enqueued_by_chunks_example =
    enqueued_by_chunks (λ i. i == 0) ("ada@example.com" ∷ "bob@example.com" ∷ [])
      ("eve@example.com" ∷ [])
