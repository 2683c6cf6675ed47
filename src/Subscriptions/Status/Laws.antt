-- ===== src/Subscriptions/Status/Laws.antt =====
-- A cancellation and its undoing, and what the account page says about access.
use conference_contact.Prelude.{
  ℕ, ◌==◌, Bool, true, false, some, ◌≡◌, refl, sym, ◌∙◌, Option-cases, inl, inr, find_latest,
  find_first, update_where, All-every, arith,
}
use conference_contact.Prelude.Rows.Latest.{latest_wider, find_latest-update_where}
use conference_contact.Schema.{Db}
use conference_contact.Schema.Accounts.{User, is_admin}
use conference_contact.Schema.Billing.{Subscription}
use conference_contact.Action.{Result, ok, err, ◌>>=◌}
use conference_contact.Guards.{
  find_user, live_filter, live_or_canceled_filter, TokenPayload, directory_access_guard,
}
use conference_contact.Stripe.{Env}
use conference_contact.Subscriptions.Checkout.{find_live}
use conference_contact.Subscriptions.Status.{
  own_filter, view_access, get_status, cancel, resume, ending_filter,
}

abbrev pub is_ok : Result Bool → Bool
is_ok (ok b) = b
is_ok (err e) = false

-- When the newest of the user's rows is live or cancelled, what the account page says about access
-- to the Directory is what the guard decides, for a token that carries the user's role.
pub get_status_agrees :
    (env : Env) (payload : TokenPayload) (db : Db) {u : User} {s : Subscription}
    → find_user payload.sub db ≡ some u
    → is_admin payload.role ≡ is_admin u.role
    → find_latest (own_filter payload.sub) (λ r. r.created_at) db.subscriptions ≡ some s
    → (live_or_canceled_filter payload.sub s ≡ true)
    → view_access (get_status env payload.sub db)
      ≡ is_ok (directory_access_guard (some payload) env.grace_period_days env.now db)
unfolding get_status directory_access_guard
get_status_agrees env payload db {u} {s} user role newest kept =
    let same : find_latest (live_or_canceled_filter payload.sub) (λ r. r.created_at)
          db.subscriptions
        ≡ some s =
      elim (latest_wider (live_or_canceled_filter payload.sub) (own_filter payload.sub)
        (λ r. r.created_at) (λ r h. ground arith) db.subscriptions) [
          | inl e ↦ sym e ∙ newest
          | inr (b, e, wide, narrow) ↦ ground (arith, e, newest)
        ] in
    rw (user, newest, same) (ground (arith, role))

abbrev pub flagged : Bool → Subscription → Subscription
flagged value r = record r { cancel_at_period_end = value }

-- The state that an update of the flag leaves.
abbrev flag_set : ℕ → Bool → Db → Db
flag_set id value db = record db {
  subscriptions = update_where (λ r. r.id == id) (flagged value) db.subscriptions;
}

find_live-flagged :
    (user_id : ℕ) (value : Bool) (db : Db) {s : Subscription}
    → find_live user_id db ≡ some s
    → find_live user_id (flag_set s.id value db) ≡ some (flagged value s)
find_live-flagged user_id value db {s} live =
    let moved =
      find_latest-update_where (live_filter user_id) (λ r. r.id == s.id) (λ r. r.created_at)
        (flagged value) (λ r. refl) db.subscriptions (All-every _ (λ r h. refl) db.subscriptions) in
    rw (moved, live) (ground arith)

find_ending :
    (user_id : ℕ) (db : Db) {s : Subscription}
    → find_live user_id db ≡ some s
    → s.cancel_at_period_end ≡ true
    → find_latest (ending_filter user_id) (λ r. r.created_at) db.subscriptions ≡ some s
find_ending user_id db {s} live ends =
    elim (latest_wider (ending_filter user_id) (live_filter user_id) (λ r. r.created_at)
      (λ r h. ground arith) db.subscriptions) [
        | inl e ↦ sym e ∙ live
        | inr (b, e, wide, narrow) ↦ ground (arith, e, live)
      ]

module _ (env : Env) (user_id : ℕ) (db : Db) {s : Subscription} where
  -- A cancellation that Stripe accepts returns, and leaves the current subscription as it was but
  -- for the flag.
  cancel_sets :
      find_live user_id db ≡ some s
      → env.stripe.set_cancel_at_period_end s.stripe_subscription_id true ≡ true
      → ((cancel env user_id db).0 ≡ ok tt)
        × (find_live user_id (cancel env user_id db).1 ≡ some (flagged true s))
  unfolding cancel ◌>>=◌
  cancel_sets live accepts = elim (Option-cases (find_first (λ u. u.id == s.user_id) db.users)) [
    | inl e ↦ rw (live, accepts, e) (refl, find_live-flagged user_id true db live)
    | inr (u, e) ↦ rw (live, accepts, e) (refl, find_live-flagged user_id true db live)
  ]

  resume_clears :
      find_live user_id db ≡ some s
      → s.cancel_at_period_end ≡ true
      → env.stripe.set_cancel_at_period_end s.stripe_subscription_id false ≡ true
      → ((resume env user_id db).0 ≡ ok tt)
        × (find_live user_id (resume env user_id db).1 ≡ some (flagged false s))
  unfolding resume ◌>>=◌
  resume_clears live ends accepts =
      rw (find_ending user_id db live ends, accepts) (refl, find_live-flagged user_id false db live)

-- When Stripe accepts both calls, a cancellation of the current subscription returns and so does a
-- resumption after it; the user's current subscription is then the same row, with no cancellation
-- pending, and in between it is the same row with one pending, so that access never changed.
pub resume-cancel :
    (env : Env) (user_id : ℕ) (db : Db) {s : Subscription}
    → find_live user_id db ≡ some s
    → env.stripe.set_cancel_at_period_end s.stripe_subscription_id true ≡ true
    → env.stripe.set_cancel_at_period_end s.stripe_subscription_id false ≡ true
    → let db' = (cancel env user_id db).1 in
      ((cancel env user_id db).0 ≡ ok tt)
      × (find_live user_id db' ≡ some (flagged true s))
      × ((resume env user_id db').0 ≡ ok tt)
      × (find_live user_id (resume env user_id db').1 ≡ some (flagged false s))
resume-cancel env user_id db {s} live on off =
    let (returned, ending) = cancel_sets env user_id db live on in
    let (resumed, back) = resume_clears env user_id (cancel env user_id db).1 ending refl off in
    (returned, ending, resumed, back)
