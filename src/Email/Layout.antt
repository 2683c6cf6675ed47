-- ===== src/Email/Layout.antt =====
-- The parts that every mail is put together from, of src/email/email-template.util.ts.
use Prim.Native.String.{String, ◌++◌}
use conference_contact.Prelude.{Option, or_else}

abbrev logo_icon_url : String
logo_icon_url = "https://www.conference.contact/icons/icon-64.png"

unfoldable pub render_email : String → Option String → String
render_email body compliance_footer =
    "<div style=\"background-color:#eeeef0;padding:40px 20px;font-family:-apple-system,BlinkMacSystemFont,'Segoe UI',Roboto,Helvetica,Arial,sans-serif;\">\n    <div style=\"max-width:480px;margin:0 auto;\">\n      <table role=\"presentation\" style=\"margin:0 auto 28px;\" cellpadding=\"0\" cellspacing=\"0\">\n        <tr>\n          <td style=\"width:28px;height:28px;vertical-align:middle;\">\n            <img src=\""
    ++ logo_icon_url
    ++ "\" width=\"28\" height=\"28\" alt=\"conference.contact\" style=\"display:block;border-radius:7px;\" />\n          </td>\n          <td style=\"padding-left:9px;font-size:17px;font-weight:800;color:#12152b;\">conference<span style=\"color:#a9c022;\">.</span>contact</td>\n        </tr>\n      </table>\n      <div style=\"background-color:#ffffff;border:1px solid #e2e2e7;border-radius:16px;padding:40px 32px;text-align:center;\">\n        "
    ++ body
    ++ "\n      </div>\n      <p style=\"text-align:center;margin-top:24px;font-size:12px;color:#9395a6;\">conference.contact — the verified conference contact directory</p>\n      "
    ++ or_else compliance_footer ""
    ++ "\n    </div>\n  </div>"

unfoldable pub heading : String → String
heading text =
    "<h1 style=\"margin:0;font-size:21px;font-weight:800;color:#12152b;line-height:1.35;\">" ++ text
    ++ "</h1>"

unfoldable pub paragraph : String → String
paragraph text =
    "<p style=\"margin:16px 0 0;font-size:15px;color:#5b5f73;line-height:1.6;\">" ++ text ++ "</p>"

unfoldable pub footnote : String → String
footnote text = "<p style=\"margin:22px 0 0;font-size:13px;color:#9395a6;\">" ++ text ++ "</p>"

unfoldable pub cta_button : String → String → String
cta_button href label =
    "<a href=\"" ++ href
    ++ "\" style=\"display:inline-block;margin-top:28px;background-color:#c6e02e;color:#0b1454;font-weight:700;font-size:15px;text-decoration:none;padding:14px 34px;border-radius:999px;\">"
    ++ label ++ "</a>"
