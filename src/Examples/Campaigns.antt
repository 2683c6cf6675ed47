-- ===== src/Examples/Campaigns.antt =====
-- The theorems on the campaign, at concrete inputs.
use conference_contact.Prelude.{
  ◌≤◌, ◌≡◌, refl, String, true, none, some, List, [], ◌∷◌, arith, if◌then◌else◌,
}
use text.Mathlib.Text.{◌==◌ as str_eq}
use conference_contact.Schema.{Db}
use conference_contact.Schema.Leads.{Prospect, pending}
use conference_contact.Action.{ok}
use conference_contact.Campaign.{CampaignEnv, suppress, mark_bounced, mark_complained}
use conference_contact.Campaign.Drip.Drained.{pending_rows, drips, drips_drain}
use conference_contact.Campaign.Drip.Invitations.{invited}
use conference_contact.Campaign.Runs.{
  CampaignStep, upload, drip, bounce, steps, invited_once, opted_out_for_good,
}
use conference_contact.Campaign.Text.{trim}
use conference_contact.Campaign.Webhook.{ResendEnv, handle_resend_webhook}
use conference_contact.Campaign.Webhook.Laws.{signed, bounce_reported}
use conference_contact.Examples.{empty_db}

abbrev morning : CampaignEnv
morning = record {
  now = 1000;
  fresh = 5;
  is_email = λ e. true;
  default_mailing_address = "1 Example Street, Springfield";
}

abbrev waiting_row : Prospect
waiting_row = record {
  id = 1;
  email = "bob@example.com";
  status = pending;
  uploaded_by_user_id = some 1;
  created_at = 10;
  sent_at = none;
}

abbrev one_waiting : Db
one_waiting = record empty_db { prospects = waiting_row ∷ [] }

abbrev file : List String
file = "bob@example.com" ∷ "ada@example.com" ∷ "eve@example.com" ∷ []

abbrev busy_day : List (CampaignEnv × CampaignStep)
busy_day =
    (morning, drip)
    ∷ (morning, upload 1 file)
    ∷ (morning, bounce "bob@example.com")
    ∷ (morning, drip)
    ∷ []

invited_once_example : invited "bob@example.com" (steps busy_day one_waiting) ≤ 1
invited_once_example =
    invited_once "bob@example.com" busy_day one_waiting (omega arith, omega arith)

opted_out_for_good_example :
    (invited "bob@example.com" (steps busy_day (mark_bounced "bob@example.com" one_waiting).1)
      ≡ invited "bob@example.com" one_waiting)
    × (invited "bob@example.com" (steps busy_day (mark_complained "bob@example.com" one_waiting).1)
        ≡ invited "bob@example.com" one_waiting)
    × (invited "bob@example.com" (steps busy_day (suppress "bob@example.com" one_waiting).1)
        ≡ invited "bob@example.com" one_waiting)
opted_out_for_good_example = opted_out_for_good "bob@example.com" busy_day one_waiting

drips_drain_example : pending_rows (drips (morning ∷ []) one_waiting) ≡ 0
drips_drain_example = drips_drain (morning ∷ []) one_waiting refl (omega arith)

abbrev resend : ResendEnv
resend = record {
  now = 1000000;
  webhook_secret = some "whsec_c2VjcmV0";
  number = λ text. if str_eq text "950" then some 950000 else none;
  hmac = λ key content. if str_eq key "whsec_c2VjcmV0" then "bWFj" else "b3RoZXI=";
  json_parse = λ body.
      if str_eq body "{}"
      then none
      else some (record { type = "email.bounced"; recipient = some " bob@example.com" });
  to_lower_case = λ text. text;
}

bounce_reported_example :
    let req = signed resend "whsec_c2VjcmV0" "msg_1" "950" "{\"type\":\"email.bounced\"}" in
    let (r, db') = handle_resend_webhook resend req one_waiting in
    (r ≡ ok tt)
    × ((handle_resend_webhook (record resend { now = 2000000 }) req db').1 ≡ db')
    × (invited "bob@example.com" (steps busy_day db') ≡ invited "bob@example.com" one_waiting)
unfolding trim
bounce_reported_example =
    bounce_reported resend "whsec_c2VjcmV0" "msg_1" "950" "{\"type\":\"email.bounced\"}"
      " bob@example.com" 950000 2000000 busy_day one_waiting refl refl refl refl refl refl refl
      (omega arith) (omega arith) refl refl
