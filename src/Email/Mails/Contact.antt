-- ===== src/Email/Mails/Contact.antt =====
-- The mails of the contact form, of src/email/email.processor.ts.
use Prim.Native.String.{String, ◌++◌}
use text.Mathlib.Text.{◌==◌ as str_eq}
use conference_contact.Prelude.{none, if◌then◌else◌}
use conference_contact.Email.Escape.{escape_html, sanitize_for_subject}
use conference_contact.Email.Words.{truthy}
use conference_contact.Email.Layout.{render_email, heading, paragraph, footnote, cta_button}
use conference_contact.Email.Mails.{EmailEnv, Mail, first_name}

-- `CONTACT_REASON_LABELS[reason] ?? reason`
unfoldable pub reason_label : String → String
reason_label reason =
    if str_eq reason "BILLING"
    then "Billing question"
    else if str_eq reason "ACCOUNT_ISSUE"
    then "Account issue"
    else if str_eq reason "REMOVE_RECORD"
    then "Remove my directory record"
    else if str_eq reason "OTHER"
    then "Other"
    else reason

unfoldable pub contact_form_mail : EmailEnv → String → String → String → String → Mail
unfolding render_email heading paragraph footnote cta_button
contact_form_mail env name from_email reason message = record {
  to = env.support_email;
  subject = "Contact form (" ++ reason_label reason ++ "): " ++ sanitize_for_subject name;
  html =
      render_email
        (heading "New contact form message"
          ++ ("<div style=\"margin-top:20px;text-align:left;font-size:14px;color:#5b5f73;line-height:1.6;\">\n                 <p style=\"margin:0;\"><strong>From:</strong> "
              ++ escape_html name
              ++ " ("
              ++ escape_html from_email
              ++ ")</p>\n                 <p style=\"margin:8px 0 0;\"><strong>Reason:</strong> "
              ++ escape_html (reason_label reason)
              ++ "</p>\n                 <p style=\"margin:16px 0 0;white-space:pre-wrap;\">"
              ++ escape_html message
              ++ "</p>\n               </div>"))
        none;
  reply_to = truthy from_email;
}

unfoldable pub contact_reply_mail : EmailEnv → String → String → String → String → Mail
unfolding render_email heading paragraph footnote cta_button
contact_reply_mail env to name original_message reply_message = record {
  to = to;
  subject = "Re: your message to conference.contact";
  html =
      render_email
        (heading ("Hi " ++ first_name name ++ ",")
          ++ ("<div style=\"margin-top:16px;text-align:left;font-size:15px;color:#5b5f73;line-height:1.6;white-space:pre-wrap;\">"
              ++ escape_html reply_message
              ++ "</div>")
          ++ ("<div style=\"margin-top:28px;padding-top:20px;border-top:1px solid #e2e2e7;text-align:left;\">\n                 <p style=\"margin:0;font-size:12px;font-weight:700;color:#9395a6;text-transform:uppercase;letter-spacing:0.03em;\">Your original message</p>\n                 <p style=\"margin:8px 0 0;font-size:13px;color:#9395a6;line-height:1.6;white-space:pre-wrap;\">"
              ++ escape_html original_message
              ++ "</p>\n               </div>")
          ++ footnote "Questions? Just reply to this email.")
        none;
  reply_to = truthy env.support_email;
}
