-- ===== src/Examples/Payments.antt =====
-- The theorems on billing and on access, at concrete inputs.
use conference_contact.Prelude.{
  inl, inr, filter_where, not, ◌==◌, All, List, Option, ℕ, ◌+◌, ◌≡◌, refl, true, false, none, some,
  [], ◌∷◌, arith,
}
use conference_contact.Schema.{Db}
use conference_contact.Schema.Billing.{active, past_due, canceled, Subscription}
use conference_contact.Access.{has_active_access, has_directory_access}
use conference_contact.RenewalReminder.{send_due_reminders}
use conference_contact.RenewalReminder.Laws.{no_second_reminder}
use conference_contact.Action.{ok, err, forbidden}
use conference_contact.Customers.Race.{interleaved, starts, customer_in}
use conference_contact.Customers.Race.Laws.{Agrees, one_customer}
use conference_contact.Credits.Ledger.{balance, granted}
use conference_contact.Guards.{directory_access_guard, access_check}
use conference_contact.Guards.Laws.{lapse_hides_cancellation}
use conference_contact.Subscriptions.Checkout.{create_checkout_session, find_live, find_plan}
use conference_contact.Subscriptions.Checkout.Laws.{
  is_error, checkout_refused, lapsed_checkout_admits,
}
use conference_contact.Subscriptions.Status.{cancel, resume, get_status, view_access}
use conference_contact.Subscriptions.Status.Laws.{flagged, is_ok, resume-cancel, get_status_agrees}
use conference_contact.Webhooks.{process, process_all}
use conference_contact.Webhooks.Ledger.{process_ledger}
use conference_contact.Webhooks.GraceClock.{IsStamped, process_all-IsStamped}
use conference_contact.Examples.{
  ada, half_year, row, tier_row, empty_db, billing_env, ada_token, pack_bought,
}

-- In its grace period at day ten, and past it.
abbrev recent : Subscription
recent = row 1 past_due (some 800000000) 5

abbrev lapsed_row : Subscription
lapsed_row = row 2 past_due (some 0) 6

abbrev old_row : Subscription
old_row = row 1 canceled none 5

abbrev in_grace : Db
in_grace = record empty_db { subscriptions = recent ∷ [] }

abbrev after_grace : Db
after_grace = record empty_db { subscriptions = lapsed_row ∷ [] }

-- With an active row of another user, who joined last.
abbrev three : Db
three = record empty_db {
  subscriptions = lapsed_row ∷ record (row 3 active none 9) { user_id = 2 } ∷ old_row ∷ [];
}

process_ledger_example :
    let (r, after) = process billing_env pack_bought empty_db in
    balance 1 after + granted 1 [] ≡ balance 1 empty_db + granted 1 after.credit_grants
process_ledger_example = process_ledger billing_env pack_bought empty_db 1

process_all-IsStamped_example :
    IsStamped (process_all ((billing_env, pack_bought) ∷ (billing_env, pack_bought) ∷ []) in_grace)
process_all-IsStamped_example =
    process_all-IsStamped ((billing_env, pack_bought) ∷ (billing_env, pack_bought) ∷ []) in_grace
      (record { directory = ((λ h e. cc), tt); tiers = tt })

checkout_refused_example :
    ((create_checkout_session billing_env 1 "half-year" in_grace).1 ≡ in_grace)
    × (is_error (create_checkout_session billing_env 1 "half-year" in_grace).0 ≡ true)
unfolding has_active_access
checkout_refused_example =
    checkout_refused billing_env 1 "half-year" in_grace {s = recent} refl refl

lapsed_checkout_admits_example :
    directory_access_guard
      (some ada_token)
      7
      99000000000
      (create_checkout_session billing_env 1 "half-year" after_grace).1
    ≡ ok true
unfolding has_active_access find_plan
lapsed_checkout_admits_example =
    lapsed_checkout_admits billing_env "half-year" after_grace ada_token 7 99000000000 {u = ada}
      {p = half_year} {s = lapsed_row} refl refl refl ((λ h. refl), tt) refl refl

lapse_hides_cancellation_example :
    let without = record three {
      subscriptions = filter_where (λ r. not (r.id == 2)) three.subscriptions;
    } in
    (has_directory_access (access_check old_row) 7 864000000 ≡ true)
    × (directory_access_guard (some ada_token) 7 864000000 without ≡ ok true)
    × (directory_access_guard (some ada_token) 7 864000000 three ≡ err forbidden)
lapse_hides_cancellation_example =
    lapse_hides_cancellation ada_token 7 864000000 0 old_row lapsed_row three refl refl
      (inr (inr (inl refl))) (inl refl) ((λ h. inl refl), ((λ h. cc), ((λ h. inr (inl refl)), tt)))
      (refl, refl) (refl, refl, refl) refl (omega arith) (omega arith)

resume-cancel_example :
    let db' = (cancel billing_env 1 in_grace).1 in
    ((cancel billing_env 1 in_grace).0 ≡ ok tt)
    × (find_live 1 db' ≡ some (flagged true recent))
    × ((resume billing_env 1 db').0 ≡ ok tt)
    × (find_live 1 (resume billing_env 1 db').1 ≡ some (flagged false recent))
resume-cancel_example = resume-cancel billing_env 1 in_grace {s = recent} refl refl refl

get_status_agrees_example :
    view_access (get_status billing_env 1 in_grace)
    ≡ is_ok (directory_access_guard (some ada_token) 7 864000000 in_grace)
get_status_agrees_example =
    get_status_agrees billing_env ada_token in_grace {u = ada} {s = recent} refl refl refl refl

-- Both products renew in a week.
abbrev renewing : Db
renewing = record empty_db {
  subscriptions = record (row 1 active none 0) { current_period_end = 604800000 } ∷ [];
  lead_finder_subscriptions = record (tier_row active none) { current_period_end = 604800000 } ∷ [];
}

no_second_reminder_example :
    let (r, db') = send_due_reminders 0 renewing in
    ((n : ℕ) × (r ≡ ok n)) × (send_due_reminders 3600000 db' ≡ (ok 0, db'))
no_second_reminder_example =
    no_second_reminder 0 3600000 renewing (((λ h. refl), tt), tt) (((λ h. refl), tt), tt)
      ((λ h. refl), tt) ((λ h. refl), tt)

-- Two requests read that there is no customer, and each makes one; the second loses.
abbrev race : List (ℕ × Option ℕ)
race = (0, none) ∷ (1, none) ∷ (0, some 41) ∷ (1, some 42) ∷ (0, none) ∷ (1, none) ∷ (1, none) ∷ []

one_customer_example :
    let (rs, db') = interleaved 1 race (starts 2, empty_db) in All (Agrees 1 (customer_in 1 db')) rs
one_customer_example = one_customer 1 2 race empty_db refl
