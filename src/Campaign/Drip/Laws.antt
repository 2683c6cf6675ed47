-- ===== src/Campaign/Drip/Laws.antt =====
-- What one run of the daily drip does.
use conference_contact.Prelude.{
  ◌≡◌, refl, String, true, false, ◌||◌, none, some, List, [], ◌∷◌, ◌++◌, ◌==◌, ltb, map, length,
  update_where, arith, Bool-cases, inl, inr, ◌⊎◌, if◌then◌else◌,
}
use conference_contact.Prelude.Sets.{has, set_add_all}
use conference_contact.Schema.{Db, audit}
use conference_contact.Schema.Leads.{Prospect}
use conference_contact.Action.{ok, ◌>>=◌}
use conference_contact.Campaign.{CampaignEnv, settings_of, get_or_create_settings, upsert_settings}
use conference_contact.Campaign.Upload.{among_chunk, user_emails}
use conference_contact.Campaign.Drip.{
  Sorted, batch_of, DripResult, nothing_sent, invitation, sent_at, send_all, send_batch,
  run_daily_drip,
}
use conference_contact.Campaign.Drip.Rounds.{collect, skip_rows, sort_candidates_lem, batch-Present}

-- The candidates of a run, and which of their addresses a table has.
abbrev pub candidates_of : Db → List Prospect
candidates_of db = batch_of (settings_of db).daily_cap db.prospects

abbrev pub known : List String → List Prospect → List String
known column cs = set_add_all (among_chunk column (map (λ c. c.email) cs)) []

abbrev pub sorted_of : Db → Sorted
sorted_of db =
    collect (known (user_emails db) (candidates_of db)) (known db.suppressions (candidates_of db))
      (candidates_of db) (record { to_send = []; skipped_existing = 0; skipped_unsubscribed = 0 })

abbrev pub skipped_of : Db → List Prospect
skipped_of db =
    skip_rows (known (user_emails db) (candidates_of db)) (known db.suppressions (candidates_of db))
      (candidates_of db) db.prospects

abbrev pub result_of : Db → DripResult
result_of db = record {
  sent = length (sorted_of db).to_send;
  skipped_existing = (sorted_of db).skipped_existing;
  skipped_unsubscribed = (sorted_of db).skipped_unsubscribed;
  batch_size = length (candidates_of db);
}

module _ (env : CampaignEnv) where
  abbrev pub sent_rows : Db → List Prospect
  sent_rows db =
      update_where (λ r. has (sorted_of db).to_send r.email) (sent_at env.now) (skipped_of db)

  -- A run that has candidates.
  abbrev pub dripped : Db → Db
  dripped db =
      let some_sent = ltb 0 (length (sorted_of db).to_send) in
      record db {
        campaign_settings = some (settings_of db);
        prospects = if some_sent then sent_rows db else skipped_of db;
        effects =
            (if some_sent then db.effects ++ map invitation (sorted_of db).to_send else db.effects)
            ++ audit none "admin.prospect_campaign_daily_drip" none ∷ [];
      }

  -- A run leaves all as it is, or is one over the candidates; no run throws.
  pub run_daily_drip-cases :
      (db : Db)
      → ((((settings_of db).paused || length (candidates_of db) == 0) ≡ true)
          × (run_daily_drip env db
              ≡ (ok nothing_sent, record db { campaign_settings = some (settings_of db) })))
        ⊎ (((settings_of db).paused ≡ false)
            × (run_daily_drip env db ≡ (ok (result_of db), dripped db)))
  unfolding run_daily_drip get_or_create_settings upsert_settings send_batch send_all ◌>>=◌
  run_daily_drip-cases db =
      let cs = candidates_of db in
      let ready = record db { campaign_settings = some (settings_of db) } in
      let loop =
        sort_candidates_lem (known (user_emails db) cs) (known db.suppressions cs) cs
          (record { to_send = []; skipped_existing = 0; skipped_unsubscribed = 0 }) ready
          (batch-Present (settings_of db).daily_cap db.prospects) in
      elim (Bool-cases (settings_of db).paused) [
        | inl paused ↦ inl (ground arith, rw paused refl)
        | inr running ↦ elim (Bool-cases (length cs == 0)) [
          | inl idle ↦ inl (ground arith, rw (running, idle) refl)
          | inr busy ↦ inr (
            running,
            elim (Bool-cases (ltb 0 (length (sorted_of db).to_send))) [
              | inl mailed ↦ rw (running, busy, loop, mailed) refl
              | inr silent ↦ rw (running, busy, loop, silent) refl
            ],
          )
        ]
      ]
