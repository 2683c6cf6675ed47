-- ===== src/Email/Bulk.antt =====
-- The cold invitation of src/email/bulk-email.processor.ts, with the texts that administrators set
-- and the defaults of src/email/prospect-invite-template-defaults.ts.
pub mod Laws
use Prim.Native.String.{String, ◌++◌}
use conference_contact.Prelude.{Option, none, some, or_else}
use conference_contact.Schema.Leads.{CampaignSettings}
use conference_contact.Campaign.Unsubscribe.{UnsubscribeEnv, sign_unsubscribe_token}
use conference_contact.Email.Escape.{escape_html, sanitize_for_subject}
use conference_contact.Email.Words.{truthy, encode_uri_component}
use conference_contact.Email.Layout.{render_email, heading, paragraph, footnote, cta_button}
use conference_contact.Email.Mails.{Mail}

abbrev default_subject : String
default_subject = "You've been invited to check out conference.contact"

abbrev default_heading : String
default_heading = "Thought this might be useful"

abbrev default_body : String
default_body =
    "A hand-verified directory of B2B conference contacts, with an AI tool that finds and enriches new leads live — take a look and see what’s inside."

abbrev default_cta_label : String
default_cta_label = "Take a look →"

abbrev default_footnote : String
default_footnote = "No obligation — you can create a free account just to browse."

-- FRONTEND_URL, SUPPORT_EMAIL, COMPANY_MAILING_ADDRESS, and what signs the links
pub record BulkEnv : Type 0 where
  pub frontend_url : String
  pub support_email : String
  pub default_mailing_address : String
  pub unsubscribe : UnsubscribeEnv

-- what Resend is asked to send, with the headers `List-Unsubscribe` and `List-Unsubscribe-Post`
pub record BulkMail : Type 0 where
  pub mail : Mail
  pub list_unsubscribe : String
  pub list_unsubscribe_post : String

-- `settings?.field ?? default`
abbrev setting : (CampaignSettings → Option String) → String → Option CampaignSettings → String
setting field default none = default
setting field default (some s) = or_else (field s) default

abbrev pub unsubscribe_link : BulkEnv → String → String
unsubscribe_link env to =
    env.frontend_url
    ++ "/unsubscribe?email="
    ++ encode_uri_component to
    ++ "&token="
    ++ encode_uri_component (sign_unsubscribe_token env.unsubscribe to)

abbrev compliance_footer : BulkEnv → Option CampaignSettings → String → String
compliance_footer env settings unsubscribe_link =
    "<p style=\"text-align:center;margin-top:12px;font-size:12px;color:#9395a6;\">\n               <a href=\""
    ++ unsubscribe_link
    ++ "\" style=\"color:#9395a6;text-decoration:underline;\">Unsubscribe</a> from emails like this.\n             </p>\n             <p style=\"text-align:center;margin-top:8px;font-size:11px;color:#b3b5c2;\">"
    ++ escape_html (setting (λ s. s.email_mailing_address) env.default_mailing_address settings)
    ++ "</p>"

unfoldable pub cold_invite : BulkEnv → Option CampaignSettings → String → BulkMail
unfolding render_email heading paragraph footnote cta_button
cold_invite env settings to = record {
  mail = record {
    to = to;
    subject = sanitize_for_subject (setting (λ s. s.email_subject) default_subject settings);
    html =
        render_email
          (heading (escape_html (setting (λ s. s.email_heading) default_heading settings))
            ++ paragraph (escape_html (setting (λ s. s.email_body) default_body settings))
            ++ cta_button (env.frontend_url ++ "/invited?email=" ++ encode_uri_component to)
                (escape_html (setting (λ s. s.email_cta_label) default_cta_label settings))
            ++ footnote (escape_html (setting (λ s. s.email_footnote) default_footnote settings)))
          (some (compliance_footer env settings (unsubscribe_link env to)));
    reply_to = some env.support_email;
  };
  list_unsubscribe = "<" ++ unsubscribe_link env to ++ ">";
  list_unsubscribe_post = "List-Unsubscribe=One-Click";
}
