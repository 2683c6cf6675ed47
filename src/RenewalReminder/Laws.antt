-- ===== src/RenewalReminder/Laws.antt =====
-- Runs of the reminder one after the other.
use conference_contact.Prelude.{
  is_some, if◌then◌else◌, ◌++◌, String, ℕ, ◌≡◌, refl, true, inl, inr, Option-cases, List, [], ◌∷◌,
  ◌+◌, ◌==◌, All, Bool-cases, some, find_first, filter_where,
}
use conference_contact.Schema.{Db, Effect, mail}
use conference_contact.Schema.Billing.{Subscription, LeadFinderSubscription}
use conference_contact.Action.{Action, ok, mail_user, ◌>>=◌}
use conference_contact.RenewalReminder.{
  is_due, tier_is_due, remind, remind_tier, each, send_due_reminders,
}
use conference_contact.RenewalReminder.Marks.{Marking, is_done, mark_row, mark_rows, OneEnd, marked}

abbrev pub directory : Marking Subscription
directory = record {
  id = λ s. s.id;
  end = λ s. s.current_period_end;
  mark = λ s. s.renewal_reminder_sent_for_period_end;
  put = λ e s. record s { renewal_reminder_sent_for_period_end = some e };
  id-put = λ e s. refl;
  end-put = λ e s. refl;
  mark-put = λ e s. refl;
}

abbrev pub lead_finder : Marking LeadFinderSubscription
lead_finder = record {
  id = λ s. s.id;
  end = λ s. s.current_period_end;
  mark = λ s. s.renewal_reminder_sent_for_period_end;
  put = λ e s. record s { renewal_reminder_sent_for_period_end = some e };
  id-put = λ e s. refl;
  end-put = λ e s. refl;
  mark-put = λ e s. refl;
}

mail_user_lem :
    (id : ℕ) (template : String) (db : Db)
    → (es : List Effect) × (mail_user id template db ≡ (ok tt, record db { effects = es }))
unfolding mail_user
mail_user_lem id template db = elim (Option-cases (find_first (λ u. u.id == id) db.users)) [
  | inl nobody ↦ (db.effects, rw (nobody, mail_user) refl)
  | inr (u, found) ↦ (db.effects ++ mail template u.email ∷ [], rw (found, mail_user) refl)
]

-- What a round, or a loop of them, leaves: a table of marks, and mails.
abbrev Leaves : Db → List Subscription → Action ℕ → Type 0
Leaves db rows m =
    (n : ℕ) × (es : List Effect) × (m db ≡ (ok n, record db { subscriptions = rows; effects = es }))

abbrev LeavesTiers : Db → List LeadFinderSubscription → Action ℕ → Type 0
LeavesTiers db rows m =
    (n : ℕ) × (es : List Effect) × (m db
      ≡ (ok n, record db { lead_finder_subscriptions = rows; effects = es }))

remind_lem :
    (s : Subscription) (db : Db) → Leaves db (mark_row directory s db.subscriptions) (remind s)
unfolding remind ◌>>=◌
remind_lem s db = elim (Bool-cases (is_done directory s)) [
  | inl done ↦ (0, db.effects, rw done refl)
  | inr fresh ↦
      (let (es, e) = mail_user_lem s.user_id "renewal-reminder" db in
        (
          if is_some (find_first (λ r. r.id == s.id) db.subscriptions) then 1 else 0,
          es,
          rw (fresh, e) refl,
        ))
]

remind_tier_lem :
    (s : LeadFinderSubscription) (db : Db)
    → LeavesTiers db (mark_row lead_finder s db.lead_finder_subscriptions) (remind_tier s)
unfolding remind_tier ◌>>=◌
remind_tier_lem s db = elim (Bool-cases (is_done lead_finder s)) [
  | inl done ↦ (0, db.effects, rw done refl)
  | inr fresh ↦
      (let (es, e) = mail_user_lem s.user_id "renewal-reminder" db in
        (
          if is_some (find_first (λ r. r.id == s.id) db.lead_finder_subscriptions) then 1 else 0,
          es,
          rw (fresh, e) refl,
        ))
]

each_remind_lem :
    (ss : List Subscription) (db : Db)
    → Leaves db (mark_rows directory ss db.subscriptions) (each remind ss)
unfolding each ◌>>=◌
each_remind_lem [] db = (0, db.effects, refl)
each_remind_lem (s ∷ ss) db =
    let (n, es, e) = remind_lem s db in
    let (m, es', e') =
      each_remind_lem ss
        (record db { subscriptions = mark_row directory s db.subscriptions; effects = es }) in
    (n + m, es', rw (e, e') refl)

each_remind_tier_lem :
    (ss : List LeadFinderSubscription) (db : Db)
    → LeavesTiers db (mark_rows lead_finder ss db.lead_finder_subscriptions) (each remind_tier ss)
unfolding each ◌>>=◌
each_remind_tier_lem [] db = (0, db.effects, refl)
each_remind_tier_lem (s ∷ ss) db =
    let (n, es, e) = remind_tier_lem s db in
    let (m, es', e') = each_remind_tier_lem ss (record db {
      lead_finder_subscriptions = mark_row lead_finder s db.lead_finder_subscriptions;
      effects = es;
    }) in
    (n + m, es', rw (e, e') refl)

-- A round of a row that is marked does nothing.
each-remind :
    (ss : List Subscription) (db : Db)
    → All (λ s. is_done directory s ≡ true) ss
    → each remind ss db ≡ (ok 0, db)
unfolding each remind ◌>>=◌
each-remind [] db done = refl
each-remind (s ∷ ss) db (done, dones) = rw (done, each-remind ss db dones) refl

each-remind_tier :
    (ss : List LeadFinderSubscription) (db : Db)
    → All (λ s. is_done lead_finder s ≡ true) ss
    → each remind_tier ss db ≡ (ok 0, db)
unfolding each remind_tier ◌>>=◌
each-remind_tier [] db done = refl
each-remind_tier (s ∷ ss) db (done, dones) = rw (done, each-remind_tier ss db dones) refl

send_due_reminders_lem :
    (now : ℕ) (db : Db)
    → (n : ℕ) × (es : List Effect) × (send_due_reminders now db ≡ (
      ok n,
      record db {
        subscriptions =
            mark_rows directory (filter_where (is_due now) db.subscriptions) db.subscriptions;
        lead_finder_subscriptions =
            mark_rows lead_finder
              (filter_where (tier_is_due now) db.lead_finder_subscriptions)
              db.lead_finder_subscriptions;
        effects = es;
      },
    ))
unfolding send_due_reminders ◌>>=◌
send_due_reminders_lem now db =
    let (n, es, e) = each_remind_lem (filter_where (is_due now) db.subscriptions) db in
    let (m, es', e') =
      each_remind_tier_lem (filter_where (tier_is_due now) db.lead_finder_subscriptions)
        (record db {
          subscriptions =
              mark_rows directory (filter_where (is_due now) db.subscriptions) db.subscriptions;
          effects = es;
        }) in
    (n + m, es', rw (e, e') refl)

all_marked :
    (now : ℕ) (db : Db)
    → All (λ s. is_done directory s ≡ true) (filter_where (is_due now) db.subscriptions)
    → All
        (λ s. is_done lead_finder s ≡ true)
        (filter_where (tier_is_due now) db.lead_finder_subscriptions)
    → send_due_reminders now db ≡ (ok 0, db)
unfolding send_due_reminders ◌>>=◌
all_marked now db done done' =
    let e = each-remind (filter_where (is_due now) db.subscriptions) db done in
    let e' =
      each-remind_tier (filter_where (tier_is_due now) db.lead_finder_subscriptions) db done' in
    rw (e, e') refl

-- A run returns, and a second run reminds nobody and changes nothing, when
-- it looks at no row that the first one did not look at, and rows of a table with the same id have
-- the same end of their period.
pub no_second_reminder :
    (now later : ℕ) (db : Db)
    → All (OneEnd directory db.subscriptions) db.subscriptions
    → All (OneEnd lead_finder db.lead_finder_subscriptions) db.lead_finder_subscriptions
    → All (λ s. is_due later s ≡ true → is_due now s ≡ true) db.subscriptions
    → All (λ s. tier_is_due later s ≡ true → tier_is_due now s ≡ true) db.lead_finder_subscriptions
    → let (r, db') = send_due_reminders now db in
      ((n : ℕ) × (r ≡ ok n)) × (send_due_reminders later db' ≡ (ok 0, db'))
no_second_reminder now later db one one' no_more no_more' =
    let (n, es, e) = send_due_reminders_lem now db in
    rw e (
      (n, refl),
      all_marked later _ (marked directory (is_due later) (is_due now) db.subscriptions one no_more)
          (marked lead_finder (tier_is_due later) (tier_is_due now) db.lead_finder_subscriptions
            one' no_more'),
    )
