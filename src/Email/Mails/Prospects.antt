-- ===== src/Email/Mails/Prospects.antt =====
-- The mails to users who have bought nothing yet, of src/email/email.processor.ts.
use Prim.Native.String.{String, ◌++◌}
use conference_contact.Prelude.{none, List, [], ◌∷◌, map}
use conference_contact.Email.Escape.{escape_html}
use conference_contact.Email.Words.{truthy}
use conference_contact.Email.Layout.{render_email, heading, paragraph, footnote, cta_button}
use conference_contact.Email.Mails.{EmailEnv, Mail, first_name}

abbrev pub join : List String → String
join [] = ""
join (s ∷ ss) = s ++ join ss

abbrev features : List String
features =
    "Unlimited directory searches" ∷ "Full contact details — email, phone, LinkedIn" ∷ "CSV export"
    ∷ "AI Lead Finder credits included" ∷ []

unfoldable pub feature_item : String → String
feature_item item =
    "<li style=\"margin-top:10px;padding-left:24px;position:relative;font-size:14px;color:#5b5f73;line-height:1.5;\">\n                          <span style=\"position:absolute;left:0;color:#0b1454;font-weight:700;\">✓</span>"
    ++ escape_html item
    ++ "\n                        </li>"

unfoldable pub prospect_pitch_intro_mail : EmailEnv → String → String → Mail
unfolding render_email heading paragraph footnote cta_button
prospect_pitch_intro_mail env to full_name = record {
  to = to;
  subject = "Still there? Your conference.contact directory is ready";
  html =
      render_email
        (heading (first_name full_name ++ ", here's what's waiting for you")
          ++ paragraph
              "You created a conference.contact account but haven't unlocked the full Lead Directory yet — a hand-verified list of who actually shows up to the B2B conference circuit, with real emails, phone numbers, and LinkedIn profiles."
          ++ cta_button (env.frontend_url ++ "/account/billing") "Unlock full access →"
          ++ footnote
              "$50 every 6 months, rate locked in for as long as you stay subscribed. Cancel anytime.")
        none;
  reply_to = truthy env.support_email;
}

unfoldable pub prospect_pitch_value_mail : EmailEnv → String → String → Mail
unfolding render_email heading paragraph footnote cta_button feature_item
prospect_pitch_value_mail env to full_name = record {
  to = to;
  subject = "What you get with full Directory access";
  html =
      render_email
        (heading (first_name full_name ++ ", here's exactly what unlocks")
          ++ ("<ul style=\"margin:20px 0 0;padding:0;list-style:none;text-align:left;\">\n                 "
              ++ join (map feature_item features)
              ++ "\n               </ul>")
          ++ cta_button (env.frontend_url ++ "/account/billing") "See full access →"
          ++ footnote "$50 every 6 months. No sales calls, no tiers to compare.")
        none;
  reply_to = truthy env.support_email;
}

unfoldable pub prospect_pitch_urgency_mail : EmailEnv → String → String → Mail
unfolding render_email heading paragraph footnote cta_button
prospect_pitch_urgency_mail env to full_name = record {
  to = to;
  subject = "Lock in your rate before it changes";
  html =
      render_email
        (heading (first_name full_name ++ ", your price locks in the moment you subscribe")
          ++ paragraph
              "conference.contact is still $50 every 6 months today. If we ever raise the price, everyone already subscribed keeps the rate they signed up at — so there's no upside to waiting, only downside if pricing changes later."
          ++ cta_button (env.frontend_url ++ "/account/billing") "Lock in $50/6mo →"
          ++ footnote "No long-term contract — cancel anytime.")
        none;
  reply_to = truthy env.support_email;
}
