-- ===== src/Subscriptions/Checkout/Laws.antt =====
-- What a checkout does with the subscription that the user already has.
use conference_contact.Prelude.{
  ℕ, String, ◌==◌, Bool, true, false, Option, none, some, [], ◌∷◌, ◌++◌, ◌≡◌, refl, ◌∙◌,
  Option-cases, inl, inr, find_latest, update_where, All, List, arith,
}
use conference_contact.Prelude.Rows.Latest.{
  find_latest_matches, latest_wider, find_latest-update_where,
}
use conference_contact.Prelude.Rows.Updates.{updated}
use conference_contact.Schema.{Db, stripe_cancel}
use conference_contact.Schema.Billing.{Subscription, canceled, is_canceled, Plan}
use conference_contact.Schema.Accounts.{User}
use conference_contact.Action.{Result, ok, err, ◌>>=◌, emit}
use conference_contact.Action.Keeps.{
  Keeps, IsStable, Keeps-bind, Keeps-or_raise, Keeps-gets, Keeps-modify, Keeps-pure, keeps_rules,
}
use conference_contact.Access.{has_active_access, has_directory_access}
use conference_contact.Guards.{
  find_user, access_check, live_filter, live_or_canceled_filter, TokenPayload,
  directory_access_guard,
}
use conference_contact.Customers.{
  create_customer, reuse_customer, get_or_create_stripe_customer, open_session,
}
use conference_contact.Stripe.{Env}
use conference_contact.Subscriptions.Checkout.{
  find_plan, find_live, start_checkout, create_checkout_session,
}

abbrev pub is_error : {A : Type 0} → Result A → Bool
is_error (ok a) = false
is_error (err e) = true

-- A checkout of a user whose newest live subscription still gives access fails, whatever the plan,
-- and changes nothing: no row, no call of Stripe, no email.
pub checkout_refused :
    (env : Env) (user_id : ℕ) (plan_slug : String) (db : Db) {s : Subscription}
    → find_live user_id db ≡ some s
    → has_active_access (access_check s) env.grace_period_days env.now ≡ true
    → ((create_checkout_session env user_id plan_slug db).1 ≡ db)
      × (is_error (create_checkout_session env user_id plan_slug db).0 ≡ true)
unfolding create_checkout_session ◌>>=◌
checkout_refused env user_id plan_slug db live access = elim (Option-cases (find_user user_id db)) [
  | inl e ↦ rw e (refl, refl)
  | inr (u, e) ↦ rw e (elim (Option-cases (find_plan plan_slug db)) [
    | inl e ↦ rw e (refl, refl)
    | inr (p, e) ↦ rw (e, live, access) (refl, refl)
  ])
]

abbrev SameRows : Db → Db → Type 0
SameRows a b = b.subscriptions ≡ a.subscriptions

SameRows-IsStable : IsStable SameRows
unfolding emit
SameRows-IsStable = record {
  same = λ db. refl;
  compose = λ a b c f g. g ∙ f;
  effect = λ db e. refl;
}

created-SameRows : (env : Env) (user_id : ℕ) → Keeps SameRows (create_customer env user_id)
unfolding create_customer
created-SameRows env user_id =
    let stable = SameRows-IsStable in
    Keeps-bind stable _ _ (Keeps-or_raise stable (env.stripe.create_customer user_id) _) λ customer.
      Keeps-bind stable _ _ (Keeps-gets stable _) λ count.
        Keeps-bind stable _ _ (Keeps-modify _ (λ db. refl)) λ done. search (keeps_rules, stable)

customer-SameRows :
    (env : Env) (user_id : ℕ) → Keeps SameRows (get_or_create_stripe_customer env user_id)
unfolding get_or_create_stripe_customer
customer-SameRows env user_id =
    Keeps-bind SameRows-IsStable _ _ (Keeps-gets SameRows-IsStable _) reused
  where
    reused : (o : Option ℕ) → Keeps SameRows (reuse_customer env o user_id)
    reused none = created-SameRows env user_id
    reused (some c) = Keeps-pure SameRows-IsStable c

start-SameRows :
    (env : Env) (user_id : ℕ) (u : User) (p : Plan)
    → Keeps SameRows (start_checkout env user_id u p)
unfolding start_checkout open_session
start-SameRows env user_id u p = search (keeps_rules, SameRows-IsStable, customer-SameRows) depth 10

directory_of_canceled :
    (b : Subscription) (grace now : ℕ)
    → is_canceled b.status ≡ true
    → has_directory_access (access_check b) grace now ≡ true
unfolding has_directory_access
directory_of_canceled b grace now h = ground arith

-- Whom the guard finds a row with access for, it lets through.
admitted :
    (payload : TokenPayload) (grace now : ℕ) (db : Db) {b : Subscription}
    → find_latest (live_or_canceled_filter payload.sub) (λ s. s.created_at) db.subscriptions
      ≡ some b
    → has_directory_access (access_check b) grace now ≡ true
    → directory_access_guard (some payload) grace now db ≡ ok true
unfolding directory_access_guard
admitted payload grace now db found access = rw (found, access) (ground arith)

-- The primary key: no other row has the id of the row.
abbrev pub HasOwnId : Subscription → List Subscription → Type 0
HasOwnId s rows = All (λ r. (r.id == s.id) ≡ true → r ≡ s) rows

abbrev lapsed : Subscription → Subscription
lapsed r = record r { status = canceled; cancel_at_period_end = false }

still_seen :
    (user_id : ℕ) (s : Subscription) (rows : List Subscription)
    → live_filter user_id s ≡ true
    → HasOwnId s rows
    → All
        (λ r.
          (r.id == s.id) ≡ true
          → live_or_canceled_filter user_id (lapsed r) ≡ live_or_canceled_filter user_id r)
        rows
still_seen user_id s [] live own = tt
still_seen user_id s (r ∷ rows) live (own, rest) =
    (λ e. (let same = own e in rw same (ground arith)), still_seen user_id s rows live rest)

-- Once the old subscription is cancelled, the newest row that the guard looks at is cancelled.
lapsed_newest :
    (user_id : ℕ) (db : Db) {s : Subscription}
    → find_live user_id db ≡ some s
    → HasOwnId s db.subscriptions
    → (b : Subscription) × (find_latest
          (live_or_canceled_filter user_id)
          (λ r. r.created_at)
          (update_where (λ r. r.id == s.id) lapsed db.subscriptions)
        ≡ some b)
      × (is_canceled b.status ≡ true)
lapsed_newest user_id db {s} live own =
    let is_live =
      find_latest_matches (live_filter user_id) (λ r. r.created_at) db.subscriptions live in
    let moved =
      find_latest-update_where (live_or_canceled_filter user_id) (λ r. r.id == s.id)
        (λ r. r.created_at) lapsed (λ r. refl) db.subscriptions
        (still_seen user_id s db.subscriptions is_live own) in
    elim (latest_wider (live_filter user_id) (live_or_canceled_filter user_id) (λ r. r.created_at)
      (λ r h. ground arith) db.subscriptions) [
        | inl e ↦ (lapsed s, rw (moved, e, live) (ground arith), refl)
        | inr (b, e, wide, narrow) ↦
            (updated (λ r. r.id == s.id) lapsed b, rw (moved, e) refl, ground arith)
      ]

-- When a user whose newest live subscription is past its grace period starts a checkout of a plan on
-- sale, and Stripe accepts to cancel that subscription, the Directory guard lets the user in on the
-- state that the call leaves, at any time and under any grace period: the row that lapsed unpaid is
-- now a cancelled one. That holds whether or not the checkout session itself is created.
pub lapsed_checkout_admits :
    (env : Env) (plan_slug : String) (db : Db) (payload : TokenPayload) (grace later : ℕ) {u : User}
    {p : Plan} {s : Subscription}
    → find_user payload.sub db ≡ some u
    → find_plan plan_slug db ≡ some p
    → find_live payload.sub db ≡ some s
    → HasOwnId s db.subscriptions
    → has_active_access (access_check s) env.grace_period_days env.now ≡ false
    → env.stripe.cancel s.stripe_subscription_id ≡ true
    → directory_access_guard
        (some payload)
        grace
        later
        (create_checkout_session env payload.sub plan_slug db).1
      ≡ ok true
unfolding create_checkout_session ◌>>=◌
lapsed_checkout_admits env plan_slug db payload grace later {u} {p} {s} user plan live own no_access
      cancels =
    let (b, found, is_b) = lapsed_newest payload.sub db live own in
    rw (user, plan, live, no_access, cancels)
      (let db' = record db {
        subscriptions = update_where (λ r. r.id == s.id) lapsed db.subscriptions;
        effects = db.effects ++ stripe_cancel s.stripe_subscription_id ∷ [];
      } in
        let same = (start-SameRows env payload.sub u p).at db' in
        admitted payload grace later (start_checkout env payload.sub u p db').1 {b = b}
          (rw same found) (directory_of_canceled b grace later is_b))
