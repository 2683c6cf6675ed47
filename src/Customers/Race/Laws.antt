-- ===== src/Customers/Race/Laws.antt =====
-- Requests of one user that race for the first Stripe customer.
use conference_contact.Prelude.{
  ℕ, zero, suc, ◌≡◌, refl, ◌∙◌, ◌⊎◌, true, Option, none, some, List, [], ◌∷◌, ◌==◌, inl, inr, All,
  Bool-cases, is_some, count_where, arith, Option-cases,
}
use conference_contact.Prelude.Rows.Counts.{count_where-update_where}
use conference_contact.Schema.{Db}
use conference_contact.Action.{Result, ok, err, ◌>>=◌}
use conference_contact.Stripe.{Env}
use conference_contact.Customers.{unbilled, create_customer, get_or_create_stripe_customer}
use conference_contact.Customers.Race.Rows.{billed, customer_kept, customer_written, customer_there}
use conference_contact.Customers.Race.{
  Request, start, without_customer, created, lost, returned, failed, customer_in, with_customer,
  next, next_at, interleaved, starts,
}

module _ (user_id : ℕ) where
  abbrev Only : Db → Type 0
  Only db = count_where (λ u. u.id == user_id) db.users ≡ 1

  -- What a request has returned is the customer of the row; one that lost has one to read.
  abbrev Fits : Db → Request → Type 0
  Fits db (returned customer) = customer_in user_id db ≡ some customer
  Fits db (lost customer) = is_some (customer_in user_id db) ≡ true
  Fits db start = Unit {0}
  Fits db without_customer = Unit {0}
  Fits db (created customer) = Unit {0}
  Fits db failed = Unit {0}

  -- A step leaves the database as it is, or writes a customer.
  abbrev Wrote : Db → Db → Type 0
  Wrote db db' = (db' ≡ db) ⊎ ((customer : ℕ) × (db' ≡ with_customer user_id customer db))

  Only-with_customer : (customer : ℕ) (db : Db) → Only db → Only (with_customer user_id customer db)
  Only-with_customer customer db one =
      count_where-update_where (λ u. u.id == user_id) (unbilled user_id) (billed customer)
        (λ u. refl) db.users
      ∙ one

  Fits-with_customer :
      (customer : ℕ) (db : Db) (r : Request)
      → Fits db r
      → Fits (with_customer user_id customer db) r
  Fits-with_customer customer db (returned c) h = customer_kept user_id customer c db.users h
  Fits-with_customer customer db (lost c) h = elim (Option-cases (customer_in user_id db)) [
    | inl null ↦ absurd (ground (arith, null, h))
    | inr (d, has) ↦ ground (arith, customer_kept user_id customer d db.users has)
  ]
  Fits-with_customer customer db start h = tt
  Fits-with_customer customer db without_customer h = tt
  Fits-with_customer customer db (created c) h = tt
  Fits-with_customer customer db failed h = tt

  next-Fits :
      (answer : Option ℕ) (r : Request) (db : Db)
      → Only db
      → Fits db r
      → let (r', db') = next user_id answer r db in Fits db' r' × Wrote db db'
  unfolding next
  next-Fits answer start db one h = elim (Option-cases (customer_in user_id db)) [
    | inl null ↦ rw null (tt, inl refl)
    | inr (c, has) ↦ rw has (has, inl refl)
  ]
  next-Fits none without_customer db one h = (tt, inl refl)
  next-Fits (some c) without_customer db one h = (tt, inl refl)
  next-Fits answer (created c) db one h =
      elim (Bool-cases (count_where (unbilled user_id) db.users == 0)) [
        | inl all ↦ rw all (
          Fits-with_customer c db (lost c) (customer_there user_id db.users one all),
          inr (c, refl),
        )
        | inr left ↦ rw left (customer_written user_id c db.users one left, inr (c, refl))
      ]
  next-Fits answer (lost c) db one h = elim (Option-cases (customer_in user_id db)) [
    | inl null ↦ absurd (ground (arith, null, h))
    | inr (d, has) ↦ rw has (refl, inl refl)
  ]
  next-Fits answer (returned c) db one h = (h, inl refl)
  next-Fits answer failed db one h = (tt, inl refl)

  Wrote-Only : (db db' : Db) → Wrote db db' → Only db → Only db'
  Wrote-Only db db' (inl same) one = rw same one
  Wrote-Only db db' (inr (customer, e)) one = rw e (Only-with_customer customer db one)

  Wrote-Fits : (db db' : Db) → Wrote db db' → (r : Request) → Fits db r → Fits db' r
  Wrote-Fits db db' (inl same) r h = rw same h
  Wrote-Fits db db' (inr (customer, e)) r h = rw e (Fits-with_customer customer db r h)

  All-Fits :
      (db db' : Db) → Wrote db db' → (rs : List Request) → All (Fits db) rs → All (Fits db') rs
  All-Fits db db' w [] h = tt
  All-Fits db db' w (r ∷ rs) (h, hs) = (Wrote-Fits db db' w r h, All-Fits db db' w rs hs)

  next_at-Fits :
      (i : ℕ) (answer : Option ℕ) (rs : List Request) (db : Db)
      → Only db
      → All (Fits db) rs
      → let (rs', db') = next_at user_id i answer rs db in All (Fits db') rs' × Wrote db db'
  unfolding next_at
  next_at-Fits i answer [] db one h = (tt, inl refl)
  next_at-Fits zero answer (r ∷ rs) db one (h, hs) =
      let (h', w) = next-Fits answer r db one h in
      ((h', All-Fits db (next user_id answer r db).1 w rs hs), w)
  next_at-Fits (suc i) answer (r ∷ rs) db one (h, hs) =
      let (hs', w) = next_at-Fits i answer rs db one hs in
      ((Wrote-Fits db (next_at user_id i answer rs db).1 w r h, hs'), w)

  interleaved-Fits :
      (steps : List (ℕ × Option ℕ)) (rs : List Request) (db : Db)
      → Only db
      → All (Fits db) rs
      → let (rs', db') = interleaved user_id steps (rs, db) in All (Fits db') rs'
  interleaved-Fits [] rs db one h = h
  interleaved-Fits ((i, answer) ∷ steps) rs db one h =
      let (rs', db') = next_at user_id i answer rs db in
      let (h', w) = next_at-Fits i answer rs db one h in
      interleaved-Fits steps rs' db' (Wrote-Only db db' w one) h'

  starts-Fits : (n : ℕ) (db : Db) → All (Fits db) (starts n)
  starts-Fits zero db = tt
  starts-Fits (suc n) db = (tt, starts-Fits n db)

  -- Whether a request has not returned, or has returned this customer.
  abbrev pub Agrees : Option ℕ → Request → Type 0
  Agrees customer (returned c) = customer ≡ some c
  Agrees customer start = Unit {0}
  Agrees customer without_customer = Unit {0}
  Agrees customer (created c) = Unit {0}
  Agrees customer (lost c) = Unit {0}
  Agrees customer failed = Unit {0}

  All-Agrees :
      (db : Db) (rs : List Request) → All (Fits db) rs → All (Agrees (customer_in user_id db)) rs
  All-Agrees db [] h = tt
  All-Agrees db (returned c ∷ rs) (h, hs) = (h, All-Agrees db rs hs)
  All-Agrees db (start ∷ rs) (h, hs) = (tt, All-Agrees db rs hs)
  All-Agrees db (without_customer ∷ rs) (h, hs) = (tt, All-Agrees db rs hs)
  All-Agrees db (created c ∷ rs) (h, hs) = (tt, All-Agrees db rs hs)
  All-Agrees db (lost c ∷ rs) (h, hs) = (tt, All-Agrees db rs hs)
  All-Agrees db (failed ∷ rs) (h, hs) = (tt, All-Agrees db rs hs)

-- However the steps of any number of requests of a user with one row are interleaved, and whatever
-- Stripe answers to each: all requests that have returned have returned the same customer, which the
-- user's row has.
pub one_customer :
    (user_id n : ℕ) (steps : List (ℕ × Option ℕ)) (db : Db)
    → count_where (λ u. u.id == user_id) db.users ≡ 1
    → let (rs, db') = interleaved user_id steps (starts n, db) in
      All (Agrees user_id (customer_in user_id db')) rs
one_customer user_id n steps db one =
    let (rs, db') = interleaved user_id steps (starts n, db) in
    All-Agrees user_id db' rs
      (interleaved-Fits user_id steps (starts n) db one (starts-Fits user_id n db))

-- How a run of the whole function ends a request.
abbrev ended : Result ℕ → Request
ended (ok customer) = returned customer
ended (err e) = failed

-- With no other request in between, four steps are the whole function.
alone :
    (env : Env) (user_id : ℕ) (db : Db)
    → let go = λ (q : Request × Db). next user_id (env.stripe.create_customer user_id) q.0 q.1 in
      let (r, db') = get_or_create_stripe_customer env user_id db in
      go (go (go (go (start, db)))) ≡ (ended r, db')
unfolding next get_or_create_stripe_customer create_customer ◌>>=◌
alone env user_id db = elim (Option-cases (customer_in user_id db)) [
  | inr (c, has) ↦ rw has refl
  | inl null ↦ elim (Option-cases (env.stripe.create_customer user_id)) [
    | inl refused ↦ rw (null, refused) refl
    | inr (c, made) ↦ elim (Bool-cases (count_where (unbilled user_id) db.users == 0)) [
      | inl all ↦ rw (null, made, all) refl
      | inr left ↦ rw (null, made, left) refl
    ]
  ]
]
