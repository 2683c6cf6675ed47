-- ===== src/Campaign/Drip/Drained.antt =====
-- The drip empties the queue: each run settles its whole batch.
use conference_contact.Prelude.{
  ℕ, zero, suc, take, ap, ◌+◌, ◌-◌, ◌≤◌, ◌≡◌, refl, ◌∙◌, String, true, false, ◌&&◌, List, [], ◌∷◌,
  ltb, any, length, sort_by, filter_where, count_where, arith, Bool-cases, inl, inr, if◌then◌else◌,
}
use text.Mathlib.TextPositions.{eq_refl}
use conference_contact.Prelude.Rows.Counts.{
  count_where-sort_by, length-sort_by, length-filter_where, count_where-filter_where, outside,
  count_where-outside, All-any_self,
}
use conference_contact.Prelude.Sets.{has}
use conference_contact.Schema.{Db}
use conference_contact.Schema.Leads.{Prospect, CampaignSettings}
use conference_contact.Campaign.{CampaignEnv, settings_of}
use conference_contact.Campaign.Upload.{user_emails}
use conference_contact.Campaign.Drip.{is_pending, sent_at, run_daily_drip}
use conference_contact.Campaign.Drip.Laws.{
  candidates_of, known, sorted_of, skipped_of, dripped, run_daily_drip-cases,
}
use conference_contact.Campaign.Drip.Settled.{
  count_where-le, count_where-updated, same_row, after_loop, count_where-skip_rows,
  after_loop-email, after_loop-pending, after_loop-sent,
}

has-short : (set : List String) (a : String) → ltb 0 (length set) ≡ false → has set a ≡ false
has-short [] a short = refl
has-short (x ∷ xs) a short = ground arith

abbrev pub pending_rows : Db → ℕ
pending_rows db = count_where is_pending db.prospects

module _ (env : CampaignEnv) (db : Db) where
  -- A row that the loop leaves pending and that is not sent to was pending and is not of the batch.
  left_out :
      (r : Prospect)
      → is_pending (
          after_loop
            (known (user_emails db) (candidates_of db))
            (known db.suppressions (candidates_of db))
            (candidates_of db)
            r)
        ≡ true
      → has (sorted_of db).to_send r.email ≡ false
      → (is_pending r && outside same_row (candidates_of db) r) ≡ true
  left_out r still unsent =
      let cs = candidates_of db in
      let ex = known (user_emails db) cs in
      let su = known db.suppressions cs in
      let before = after_loop-pending ex su cs r still in
      elim (Bool-cases (any (λ c. same_row c r) cs)) [
        | inl chosen ↦
            (let sent =
                after_loop-sent ex su cs
                  (record { to_send = []; skipped_existing = 0; skipped_unsubscribed = 0 }) r chosen
                  still in
              absurd (ground (arith, sent, unsent)))
        | inr other ↦ ground (arith, before, other)
      ]

  settled_row :
      (r : Prospect)
      → (let r' =
            after_loop
              (known (user_emails db) (candidates_of db))
              (known db.suppressions (candidates_of db))
              (candidates_of db)
              r in
          is_pending (if has (sorted_of db).to_send r'.email then sent_at env.now r' else r')
          ≡ true)
      → (is_pending r && outside same_row (candidates_of db) r) ≡ true
  settled_row r h =
      let cs = candidates_of db in
      let ex = known (user_emails db) cs in
      let su = known db.suppressions cs in
      let kept = after_loop-email ex su cs r in
      let h = rw kept at h in
      elim (Bool-cases (has (sorted_of db).to_send r.email)) [
        | inl chosen ↦ (let h = rw chosen at h in absurd (ground (arith, h)))
        | inr unsent ↦ left_out r (rw unsent at h) unsent
      ]

  count_where-left_out :
      count_where (λ r. is_pending r && outside same_row (candidates_of db) r) db.prospects
      ≤ pending_rows db - (settings_of db).daily_cap
  count_where-left_out =
      let cap = (settings_of db).daily_cap in
      let rows = filter_where is_pending db.prospects in
      let sorted = sort_by (λ r. r.created_at) rows in
      let own = All-any_self same_row (λ r. ground (arith, eq_refl r.email)) (candidates_of db) in
      let few = count_where-outside same_row (candidates_of db) cap sorted own in
      let as_sorted =
        count_where-sort_by (outside same_row (candidates_of db)) (λ r. r.created_at) rows in
      let as_filtered =
        count_where-filter_where (outside same_row (candidates_of db)) is_pending db.prospects in
      let long = length-sort_by (λ r. r.created_at) rows in
      let long' = length-filter_where is_pending db.prospects in
      omega (arith, few, as_sorted, as_filtered, long, long')

  dripped-pending : pending_rows (dripped env db) ≤ pending_rows db - (settings_of db).daily_cap
  dripped-pending =
      let cs = candidates_of db in
      let ex = known (user_emails db) cs in
      let su = known db.suppressions cs in
      let to_send = (sorted_of db).to_send in
      let rest = count_where-left_out in
      elim (Bool-cases (ltb 0 (length to_send))) [
        | inl some_sent ↦
            (let p = λ (r : Prospect).
                is_pending (if has to_send r.email then sent_at env.now r else r) in
              let updated =
                count_where-updated is_pending (λ r. has to_send r.email) (sent_at env.now)
                  (skipped_of db) in
              let settled = count_where-skip_rows ex su p cs db.prospects in
              let fewer =
                count_where-le (λ r. p (after_loop ex su cs r))
                  (λ r. is_pending r && outside same_row cs r) (λ r h. settled_row r h)
                  db.prospects in
              rw some_sent (omega (arith, updated, settled, fewer, rest)))
        | inr none_sent ↦
            (let settled = count_where-skip_rows ex su is_pending cs db.prospects in
              let fewer =
                count_where-le (λ r. is_pending (after_loop ex su cs r))
                  (λ r. is_pending r && outside same_row cs r)
                  (λ r h. left_out r h (has-short to_send r.email none_sent)) db.prospects in
              rw none_sent (omega (arith, settled, fewer, rest)))
      ]

-- The drips of a number of days, one after the other.
abbrev pub drips : List CampaignEnv → Db → Db
drips [] db = db
drips (env ∷ envs) db = drips envs (run_daily_drip env db).1

-- `dailyCap` for each of the runs
abbrev pub capacity : ℕ → List CampaignEnv → ℕ
capacity cap [] = 0
capacity cap (env ∷ envs) = cap + capacity cap envs

length-untaken : (n : ℕ) (xs : List Prospect) → length (take n xs) ≡ 0 → length xs ≤ length xs - n
length-untaken zero xs none_taken = omega arith
length-untaken (suc n) [] none_taken = omega arith
length-untaken (suc n) (x ∷ xs) none_taken = absurd (omega (arith, none_taken))

drip_once :
    (env : CampaignEnv) (db : Db)
    → (settings_of db).paused ≡ false
    → (pending_rows (run_daily_drip env db).1 ≤ pending_rows db - (settings_of db).daily_cap)
      × (settings_of (run_daily_drip env db).1 ≡ settings_of db)
drip_once env db running = elim (run_daily_drip-cases env db) [
  | inl (why, idle) ↦
      (let rows = filter_where is_pending db.prospects in
        let sorted = sort_by (λ r. r.created_at) rows in
        let untaken : length sorted ≤ length sorted - (settings_of db).daily_cap =
          length-untaken (settings_of db).daily_cap sorted (ground (arith, why, running)) in
        let long = length-sort_by (λ r. r.created_at) rows in
        let long' = length-filter_where is_pending db.prospects in
        rw idle (omega (arith, untaken, long, long'), refl))
  | inr (not_paused, run) ↦ rw run (dripped-pending env db, refl)
]

-- While the campaign is not paused, runs that together may take as many rows as are pending leave
-- no row pending, whatever the addresses are.
pub drips_drain :
    (envs : List CampaignEnv) (db : Db)
    → (settings_of db).paused ≡ false
    → pending_rows db ≤ capacity (settings_of db).daily_cap envs
    → pending_rows (drips envs db) ≡ 0
drips_drain [] db running enough = omega (arith, enough)
drips_drain (env ∷ envs) db running enough =
    let (fewer, same) = drip_once env db running in
    let running' = ap (λ (s : CampaignSettings). s.paused) same in
    let cap' = ap (λ (s : CampaignSettings). capacity s.daily_cap envs) same in
    drips_drain envs (run_daily_drip env db).1 (running' ∙ running)
      (omega (arith, fewer, cap', enough))
