-- ===== src/Email/Mails/Accounts.antt =====
-- The mails to accounts and to those who are invited to make one, of
-- src/email/email.processor.ts.
use Prim.Native.String.{String, ◌++◌}
use text.Mathlib.Text.{◌==◌ as str_eq}
use conference_contact.Prelude.{none, if◌then◌else◌}
use conference_contact.Email.Escape.{escape_html}
use conference_contact.Email.Words.{truthy, encode_uri_component}
use conference_contact.Email.Layout.{render_email, heading, paragraph, footnote, cta_button}
use conference_contact.Email.Mails.{EmailEnv, Mail, first_name}

abbrev given_text : String → String
given_text given =
    "You've been given " ++ given
    ++ " — no subscription needed. Create your account to get started."

-- the perks that are granted, joined by " and "
unfoldable pub perks_text : String → String → String
perks_text grants_directory grants_lead_finder =
    if str_eq grants_directory "true"
    then (if str_eq grants_lead_finder "true"
        then given_text
            ("full access to the Lead Directory" ++ " and " ++ "unlimited AI Lead Finder searches")
        else given_text "full access to the Lead Directory")
    else (if str_eq grants_lead_finder "true"
        then given_text "unlimited AI Lead Finder searches"
        else "An account has been set up for you. Create your account to get started.")

unfoldable pub welcome_mail : EmailEnv → String → String → Mail
unfolding render_email heading paragraph footnote cta_button
welcome_mail env to full_name = record {
  to = to;
  subject = "Welcome to conference.contact";
  html =
      render_email
        (heading ("Welcome, " ++ first_name full_name)
          ++ paragraph
              "Your account is ready. You've got 100 free credits to try AI Lead Finder right away — no subscription needed to start."
          ++ cta_button (env.frontend_url ++ "/account") "Go to your account →"
          ++ footnote "Questions about getting started? Just reply to this email.")
        none;
  reply_to = truthy env.support_email;
}

unfoldable pub verification_mail : EmailEnv → String → String → Mail
unfolding render_email heading paragraph footnote cta_button
verification_mail env to token = record {
  to = to;
  subject = "Verify your email — conference.contact";
  html =
      render_email
        (heading "Verify your email"
          ++ paragraph "Confirm your email to finish setting up your conference.contact account."
          ++ cta_button (env.frontend_url ++ "/verify-email?token=" ++ encode_uri_component token)
              "Verify email →"
          ++ footnote
              "This link expires in 24 hours. If you didn't create an account, you can ignore this email.")
        none;
  reply_to = none;
}

unfoldable pub password_reset_mail : EmailEnv → String → String → Mail
unfolding render_email heading paragraph footnote cta_button
password_reset_mail env to token = record {
  to = to;
  subject = "Reset your password — conference.contact";
  html =
      render_email
        (heading "Reset your password"
          ++ paragraph "We received a request to reset your conference.contact password."
          ++ cta_button (env.frontend_url ++ "/reset-password?token=" ++ encode_uri_component token)
              "Reset password →"
          ++ footnote
              "This link expires in 1 hour. If you didn't request this, you can ignore this email — your password won't change.")
        none;
  reply_to = none;
}

unfoldable pub device_code_mail : EmailEnv → String → String → Mail
unfolding render_email heading paragraph footnote cta_button
device_code_mail env to code = record {
  to = to;
  subject = "Confirm it's you — conference.contact";
  html =
      render_email
        (heading "Confirm it's you"
          ++ paragraph "We noticed a login from a device we don't recognize."
          ++ ("<p style=\"margin:24px 0 0;font-size:32px;font-weight:800;letter-spacing:6px;color:#0b1454;\">"
              ++ code ++ "</p>")
          ++ footnote
              "Enter this code to finish signing in. It expires in 10 minutes. If this wasn't you, change your password immediately.")
        none;
  reply_to = none;
}

unfoldable pub invite_mail : EmailEnv → String → String → Mail
unfolding render_email heading paragraph footnote cta_button
invite_mail env to inviter_name = record {
  to = to;
  subject = escape_html inviter_name ++ " invited you to conference.contact";
  html =
      render_email
        (heading (escape_html inviter_name ++ " invited you to conference.contact")
          ++ paragraph
              "A hand-verified directory of B2B conference contacts, with an AI tool that finds and enriches new leads live."
          ++ cta_button (env.frontend_url ++ "/signup?email=" ++ encode_uri_component to)
              "Create your account →"
          ++ footnote
              "Full Access is $50 every 6 months, rate locked in, whenever you're ready to subscribe.")
        none;
  reply_to = none;
}

unfoldable pub admin_access_invite_mail : EmailEnv → String → String → String → Mail
unfolding render_email heading paragraph footnote cta_button
admin_access_invite_mail env to grants_directory grants_lead_finder = record {
  to = to;
  subject = "You've been invited to conference.contact";
  html =
      render_email
        (heading "You've been invited to conference.contact"
          ++ paragraph (perks_text grants_directory grants_lead_finder)
          ++ cta_button (env.frontend_url ++ "/signup?email=" ++ encode_uri_component to)
              "Create your account →"
          ++ footnote "Questions? Just reply to this email.")
        none;
  reply_to = truthy env.support_email;
}
