-- ===== src/Email/Mails/Billing.antt =====
-- The mails on subscriptions, of src/email/email.processor.ts.
use Prim.Native.String.{String, ◌++◌}
use conference_contact.Prelude.{ℕ, ◌/◌, ◌%◌, none, ◌==◌, if◌then◌else◌}
use conference_contact.Numerals.{print_int}
use conference_contact.Email.Escape.{escape_html}
use conference_contact.Email.Words.{truthy}
use conference_contact.Email.Layout.{render_email, heading, paragraph, footnote, cta_button}
use conference_contact.Email.Mails.{EmailEnv, Mail}

abbrev two_digits : ℕ → String
two_digits n = print_int (n / 10) ++ print_int (n % 10)

-- `(amountCents / 100).toFixed(2).replace(/\.00$/, '')`
unfoldable pub amount_label : ℕ → String
amount_label amount_cents =
    "$"
    ++ print_int (amount_cents / 100)
    ++ (if amount_cents % 100 == 0 then "" else "." ++ two_digits (amount_cents % 100))

unfoldable pub subscription_confirmed_mail : EmailEnv → String → String → ℕ → ℕ → Mail
unfolding render_email heading paragraph footnote cta_button
subscription_confirmed_mail env to product_label amount_cents date = record {
  to = to;
  subject = "You're subscribed — " ++ product_label ++ " confirmed";
  html =
      render_email
        (heading "You're all set"
          ++ paragraph (
              "Your payment went through and your "
              ++ escape_html product_label
              ++ " plan is active. You were charged "
              ++ amount_label amount_cents
              ++ " — it renews on <strong>"
              ++ env.date_label date
              ++ "</strong>.")
          ++ cta_button (env.frontend_url ++ "/account/billing") "Manage your plan →"
          ++ footnote "Questions about your subscription? Just reply to this email.")
        none;
  reply_to = truthy env.support_email;
}

unfoldable pub renewal_reminder_mail : EmailEnv → String → String → ℕ → ℕ → Mail
unfolding render_email heading paragraph footnote cta_button
renewal_reminder_mail env to product_label date amount_cents = record {
  to = to;
  subject = "Your " ++ product_label ++ " renews in 7 days — conference.contact";
  html =
      render_email
        (heading "Your subscription renews soon"
          ++ paragraph (
              "Your "
              ++ escape_html product_label
              ++ " plan renews on <strong>"
              ++ env.date_label date
              ++ "</strong> — you'll be charged "
              ++ amount_label amount_cents
              ++ ".")
          ++ footnote
              "No action needed to continue. Want to stop future billing instead? You can cancel anytime from your account — access stays active through the end of the period you've already paid for.")
        none;
  reply_to = none;
}

unfoldable pub payment_failed_mail : EmailEnv → String → String → ℕ → Mail
unfolding render_email heading paragraph footnote cta_button
payment_failed_mail env to product_label grace_period_days = record {
  to = to;
  subject = "Payment failed on your " ++ product_label ++ " plan — conference.contact";
  html =
      render_email
        (heading "We couldn’t process your payment"
          ++ paragraph (
              "Your card was declined for your "
              ++ escape_html product_label
              ++ " plan. You have <strong>"
              ++ print_int grace_period_days
              ++ " days</strong> to update your payment method before access pauses.")
          ++ cta_button (env.frontend_url ++ "/account/billing") "Update payment method →"
          ++ footnote
              "We'll retry the charge automatically in the meantime — if it goes through, there's nothing else to do.")
        none;
  reply_to = none;
}

unfoldable pub cancellation_scheduled_mail : EmailEnv → String → String → ℕ → Mail
unfolding render_email heading paragraph footnote cta_button
cancellation_scheduled_mail env to product_label date = record {
  to = to;
  subject = "Your " ++ product_label ++ " plan is set to cancel — conference.contact";
  html =
      render_email
        (heading "Your cancellation is scheduled"
          ++ paragraph (
              "We've turned off future billing for your "
              ++ escape_html product_label
              ++ " plan. Your access stays active through <strong>"
              ++ env.date_label date
              ++ "</strong> — you won't be charged again after that.")
          ++ cta_button (env.frontend_url ++ "/account/billing") "Manage your plan →"
          ++ footnote
              "Changed your mind? You can resume anytime before that date and keep your access uninterrupted.")
        none;
  reply_to = truthy env.support_email;
}
