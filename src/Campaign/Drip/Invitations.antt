-- ===== src/Campaign/Drip/Invitations.antt =====
-- The invitations that one run of the daily drip sends, counted by address.
use conference_contact.Prelude.{
  ℕ, ap, ◌+◌, ◌≤◌, ◌≡◌, refl, String, Bool, true, false, ◌&&◌, ◌||◌, none, List, [], ◌∷◌, ◌++◌, ltb,
  map, length, count_where, arith, Bool-cases, inl, inr,
}
use text.Mathlib.Text.{◌==◌ as str_eq}
use conference_contact.Prelude.Rows.Counts.{
  count_where-append, count_where-le-length, count_where-update_where, count_where-update_where-le,
  count_where-update_where-none,
}
use conference_contact.Prelude.Sets.{has}
use conference_contact.Prelude.Sets.Laws.{
  str_eq-path, has-set_add_all, has-filter_where, has-count_where,
}
use conference_contact.Schema.{Db, Effect, mail, audit}
use conference_contact.Schema.Leads.{Prospect}
use conference_contact.Campaign.{CampaignEnv, settings_of}
use conference_contact.Campaign.Upload.{among_chunk, user_emails}
use conference_contact.Campaign.Drip.{invitation, sent_at}
use conference_contact.Campaign.Drip.Rounds.{
  row_of, waits, collect-count, collect_skips, skip_rows-rows, skip_rows-waits, batch-count,
}
use conference_contact.Campaign.Drip.Laws.{
  candidates_of, known, sorted_of, skipped_of, sent_rows, dripped,
}

abbrev pub is_invitation : String → Effect → Bool
is_invitation a (mail template to) = str_eq template "prospect-cold-invite" && str_eq a to
is_invitation a _ = false

-- How many invitations have gone to an address, and how many of its rows wait for one.
abbrev pub invited : String → Db → ℕ
invited a db = count_where (is_invitation a) db.effects

abbrev pub waiting : String → Db → ℕ
waiting a db = count_where (waits a) db.prospects

abbrev pub rows_of : String → Db → ℕ
rows_of a db = count_where (row_of a) db.prospects

invited-map :
    (a : String) (es : List String)
    → count_where (is_invitation a) (map invitation es) ≡ count_where (str_eq a) es
invited-map a [] = refl
invited-map a (e ∷ es) = ground (arith, invited-map a es)

pub has-emails :
    (a : String) (cs : List Prospect)
    → has (map (λ c. c.email) cs) a ≡ ltb 0 (count_where (row_of a) cs)
has-emails a [] = refl
has-emails a (c ∷ cs) = ground (arith, has-emails a cs)

has-known :
    (column : List String) (a : String) (cs : List Prospect)
    → has (known column cs) a ≡ (has column a && has (map (λ c. c.email) cs) a)
has-known column a cs =
    let added = has-set_add_all (among_chunk column (map (λ c. c.email) cs)) a [] in
    let queried = has-filter_where (has (map (λ c. c.email) cs)) column a in
    ground (arith, added, queried)

module _ (env : CampaignEnv) (a : String) (db : Db) where
  dripped-invited :
      invited a (dripped env db) ≡ invited a db + count_where (str_eq a) (sorted_of db).to_send
  dripped-invited =
      let to_send = (sorted_of db).to_send in
      let log = audit none "admin.prospect_campaign_daily_drip" none ∷ [] in
      let mapped = invited-map a to_send in
      let logged =
        count_where-append (is_invitation a) (db.effects ++ map invitation to_send) log in
      let quiet = count_where-append (is_invitation a) db.effects log in
      let mailed = count_where-append (is_invitation a) db.effects (map invitation to_send) in
      elim (Bool-cases (ltb 0 (length to_send))) [
        | inl some_sent ↦ rw some_sent (omega (arith, logged, mailed, mapped))
        | inr none_sent ↦
            (let zero_sent = count_where-le-length (str_eq a) to_send in
              rw none_sent (ground (arith, quiet, zero_sent)))
      ]

  pub dripped-rows : rows_of a (dripped env db) ≡ rows_of a db
  dripped-rows =
      let skipped =
        skip_rows-rows (known (user_emails db) (candidates_of db))
          (known db.suppressions (candidates_of db)) a (candidates_of db) db.prospects in
      let marked =
        count_where-update_where (row_of a) (λ r. has (sorted_of db).to_send r.email)
          (sent_at env.now) (λ r. refl) (skipped_of db) in
      ground (arith, skipped, marked)

  sends-le :
      count_where (str_eq a) (sorted_of db).to_send ≤ count_where (row_of a) (candidates_of db)
  sends-le =
      let counted =
        collect-count (known (user_emails db) (candidates_of db))
          (known db.suppressions (candidates_of db)) a (candidates_of db)
          (record { to_send = []; skipped_existing = 0; skipped_unsubscribed = 0 }) in
      omega (arith, counted)

  -- A row that an address has among those sent to does not wait any more.
  waiting-sent_rows :
      has (sorted_of db).to_send a ≡ true → count_where (waits a) (sent_rows env db) ≡ 0
  waiting-sent_rows chosen =
      count_where-update_where-none (waits a) (λ r. has (sorted_of db).to_send r.email)
        (sent_at env.now) (λ r. refl)
        (λ r other. elim (Bool-cases (str_eq a r.email)) [
          | inl same ↦
              (let e = ap (has (sorted_of db).to_send) (str_eq-path a r.email same) in
                ground (arith, e, chosen, other))
          | inr different ↦ ground (arith, different)
        ])
        (skipped_of db)

  pub dripped-waiting :
      invited a (dripped env db) + waiting a (dripped env db) ≤ invited a db + waiting a db
  dripped-waiting =
      let to_send = (sorted_of db).to_send in
      let more = dripped-invited in
      let few = sends-le in
      let batch = batch-count a (settings_of db).daily_cap db.prospects in
      let skipped =
        skip_rows-waits (known (user_emails db) (candidates_of db))
          (known db.suppressions (candidates_of db)) a (candidates_of db) db.prospects in
      let marked =
        count_where-update_where-le (waits a) (λ r. has to_send r.email) (sent_at env.now)
          (λ r h. cc) (skipped_of db) in
      let counted = has-count_where a to_send in
      let long = count_where-le-length (str_eq a) to_send in
      elim (Bool-cases (has to_send a)) [
        | inl chosen ↦
            (let none_waits = waiting-sent_rows chosen in
              let some_sent : ltb 0 (length to_send) ≡ true =
                ground (arith, chosen, counted, long) in
              let now : waiting a (dripped env db) ≡ 0 = rw some_sent none_waits in
              omega (arith, more, now, few, batch))
        | inr other ↦
            (let unsent : count_where (str_eq a) to_send ≡ 0 = ground (arith, other, counted) in
              let now : waiting a (dripped env db) ≤ waiting a db =
                ground (arith, marked, skipped) in
              omega (arith, more, now, unsent))
      ]

  -- An address of a user, or one that is suppressed, gets no invitation from a run.
  pub dripped_spares :
      (has (user_emails db) a || has db.suppressions a) ≡ true
      → invited a (dripped env db) ≡ invited a db
  dripped_spares out =
      let cs = candidates_of db in
      let emails = map (λ c. c.email) cs in
      let users = has-known (user_emails db) a cs in
      let gone = has-known db.suppressions a cs in
      let more = dripped-invited in
      let few = sends-le in
      let listed = has-emails a cs in
      elim (Bool-cases (has emails a)) [
        | inl candidate ↦
            (let skipped =
                collect_skips (known (user_emails db) cs) (known db.suppressions cs) a cs
                  (record { to_send = []; skipped_existing = 0; skipped_unsubscribed = 0 })
                  (ground (arith, users, gone, candidate, out)) in
              omega (arith, more, skipped))
        | inr absent ↦
            (let unlisted : count_where (row_of a) cs ≡ 0 = ground (arith, listed, absent) in
              omega (arith, more, few, unlisted))
      ]
