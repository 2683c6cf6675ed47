-- ===== src/Campaign/Runs.antt =====
-- The campaign over time: any sequence of uploads, drips, bounces, complaints, unsubscriptions and
-- changes of the settings, while the accounts change as they may.
use conference_contact.Prelude.{
  ℕ, ◌+◌, ◌≤◌, ◌≡◌, refl, ◌∙◌, String, Bool, true, false, ◌&&◌, ◌||◌, none, some, List, [], ◌∷◌,
  arith, inl, inr,
}
use text.Mathlib.Text.{◌==◌ as str_eq}
use text.Mathlib.TextPositions.{eq_refl}
use conference_contact.Prelude.Rows.Counts.{
  count_where-append, count_where-update_where, count_where-update_where-le,
}
use conference_contact.Prelude.Sets.{has}
use conference_contact.Prelude.Sets.Laws.{has-set_add}
use conference_contact.Schema.{Db, audit}
use conference_contact.Schema.Accounts.{User}
use conference_contact.Schema.Leads.{Prospect, ProspectStatus, pending, sent, bounced, complained}
use conference_contact.Action.{◌>>=◌}
use conference_contact.Campaign.{
  CampaignEnv, status_eq, SettingsDto, update_settings, upsert_settings, suppress,
  suppress_and_update_status, mark_bounced, mark_complained,
}
use conference_contact.Campaign.Upload.{enqueue_uploaded_emails}
use conference_contact.Campaign.Upload.Laws.{enqueue_uploaded_emails_lem}
use conference_contact.Campaign.Upload.Counts.{uploaded-rows, uploaded-invited}
use conference_contact.Campaign.Drip.{run_daily_drip}
use conference_contact.Campaign.Drip.Laws.{run_daily_drip-cases}
use conference_contact.Campaign.Drip.Rounds.{row_of, waits}
use conference_contact.Campaign.Drip.Invitations.{
  invited, waiting, rows_of, is_invitation, dripped-waiting, dripped-rows, dripped_spares,
}

pub data CampaignStep : Type 0 where
  upload : ℕ → List String → CampaignStep
  drip : CampaignStep
  bounce complaint unsubscription : String → CampaignStep
  settings : ℕ → SettingsDto → CampaignStep
  -- the accounts after whatever other handlers did to them
  accounts : List User → CampaignStep

abbrev pub step : CampaignEnv → CampaignStep → Db → Db
step env (upload admin emails) db = (enqueue_uploaded_emails env admin emails db).1
step env drip db = (run_daily_drip env db).1
step env (bounce email) db = (mark_bounced email db).1
step env (complaint email) db = (mark_complained email db).1
step env (unsubscription email) db = (suppress email db).1
step env (settings admin dto) db = (update_settings admin dto db).1
step env (accounts users) db = record db { users = users }

-- The steps in their order, each at its time.
abbrev pub steps : List (CampaignEnv × CampaignStep) → Db → Db
steps [] db = db
steps ((env, s) ∷ rest) db = steps rest (step env s db)

-- The queue has an address once at most, and once an invitation is sent, no row of it waits.
abbrev pub OneInvitation : String → Db → Type 0
OneInvitation a db = (rows_of a db ≤ 1) × (invited a db + waiting a db ≤ rows_of a db)

OneInvitation-bounce :
    (a email : String) (status : ProspectStatus) (db : Db)
    → status_eq status pending ≡ false
    → OneInvitation a db
    → OneInvitation a (suppress_and_update_status email status db).1
unfolding suppress_and_update_status suppress ◌>>=◌
OneInvitation-bounce a email status db other (one, once) =
    let q = λ (r : Prospect). str_eq r.email email && status_eq r.status sent in
    let f = λ (r : Prospect). record r { status = status } in
    let same = count_where-update_where (row_of a) q f (λ r. refl) db.prospects in
    let fewer =
      count_where-update_where-le (waits a) q f (λ r h. ground (arith, h, other)) db.prospects in
    (omega (arith, same, one), omega (arith, same, fewer, once))

OneInvitation-step :
    (a : String) (env : CampaignEnv) (s : CampaignStep) (db : Db)
    → OneInvitation a db
    → OneInvitation a (step env s db)
unfolding mark_bounced mark_complained suppress update_settings upsert_settings ◌>>=◌
OneInvitation-step a env (upload admin emails) db (one, once) =
    let (k, more, more', few) = uploaded-rows a env admin emails db in
    let same = uploaded-invited a env admin emails db in
    rw (enqueue_uploaded_emails_lem env admin emails db, step)
      (omega (arith, one, more, few), omega (arith, once, more, more', same))
OneInvitation-step a env drip db (one, once) = elim (run_daily_drip-cases env db) [
  | inl (why, idle) ↦ rw (idle, step) (one, once)
  | inr (running, run) ↦
      (let same = dripped-rows env a db in
        let fewer = dripped-waiting env a db in
        rw (run, step) (omega (arith, one, same), omega (arith, once, same, fewer)))
]
OneInvitation-step a env (bounce email) db once = OneInvitation-bounce a email bounced db refl once
OneInvitation-step a env (complaint email) db once =
    OneInvitation-bounce a email complained db refl once
OneInvitation-step a env (unsubscription email) db once = once
OneInvitation-step a env (settings admin dto) db (one, once) =
    let logged =
      count_where-append (is_invitation a) db.effects
        (audit (some admin) "admin.prospect_campaign_settings_updated" none ∷ []) in
    (one, omega (arith, once, logged))
OneInvitation-step a env (accounts users) db once = once

-- Over any sequence of steps, the campaign sends at most one invitation to an address.
pub invited_once :
    (a : String) (run : List (CampaignEnv × CampaignStep)) (db : Db)
    → OneInvitation a db
    → invited a (steps run db) ≤ 1
invited_once a [] db (one, once) = omega (arith, one, once)
invited_once a ((env, s) ∷ rest) db once =
    invited_once a rest (step env s db) (OneInvitation-step a env s db once)

-- Whether an address is suppressed.
abbrev pub out : String → Db → Bool
out a db = has db.suppressions a

out-suppress :
    (a email : String) (db : Db) → out a (suppress email db).1 ≡ (out a db || str_eq a email)
unfolding suppress
out-suppress a email db = has-set_add email a db.suppressions

out-step :
    (a : String) (env : CampaignEnv) (s : CampaignStep) (db : Db)
    → out a db ≡ true
    → (out a (step env s db) ≡ true) × (invited a (step env s db) ≡ invited a db)
unfolding mark_bounced mark_complained suppress_and_update_status suppress update_settings
    upsert_settings ◌>>=◌
out-step a env (upload admin emails) db gone =
    rw (enqueue_uploaded_emails_lem env admin emails db, step)
      (gone, uploaded-invited a env admin emails db)
out-step a env drip db gone = elim (run_daily_drip-cases env db) [
  | inl (why, idle) ↦ rw (idle, step) (gone, refl)
  | inr (running, run) ↦ rw (run, step) (gone, dripped_spares env a db (ground (arith, gone)))
]
out-step a env (bounce email) db gone = (ground (arith, out-suppress a email db, gone), refl)
out-step a env (complaint email) db gone = (ground (arith, out-suppress a email db, gone), refl)
out-step a env (unsubscription email) db gone =
    (ground (arith, out-suppress a email db, gone), refl)
out-step a env (settings admin dto) db gone =
    let logged =
      count_where-append (is_invitation a) db.effects
        (audit (some admin) "admin.prospect_campaign_settings_updated" none ∷ []) in
    (gone, omega (arith, logged))
out-step a env (accounts users) db gone = (gone, refl)

out-steps :
    (a : String) (run : List (CampaignEnv × CampaignStep)) (db : Db)
    → out a db ≡ true
    → invited a (steps run db) ≡ invited a db
out-steps a [] db gone = refl
out-steps a ((env, s) ∷ rest) db gone =
    let (still, same) = out-step a env s db gone in out-steps a rest (step env s db) still ∙ same

out-marked : (a : String) (db : Db) → out a (suppress a db).1 ≡ true
out-marked a db = ground (arith, out-suppress a a db, eq_refl a)

-- After an address has bounced, or complained, or unsubscribed, no step sends it an invitation.
pub opted_out_for_good :
    (a : String) (run : List (CampaignEnv × CampaignStep)) (db : Db)
    → (invited a (steps run (mark_bounced a db).1) ≡ invited a db)
      × (invited a (steps run (mark_complained a db).1) ≡ invited a db)
      × (invited a (steps run (suppress a db).1) ≡ invited a db)
unfolding mark_bounced mark_complained suppress_and_update_status suppress ◌>>=◌
opted_out_for_good a run db = (
  out-steps a run (mark_bounced a db).1 (out-marked a db),
  out-steps a run (mark_complained a db).1 (out-marked a db),
  out-steps a run (suppress a db).1 (out-marked a db),
)
