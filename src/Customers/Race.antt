-- ===== src/Customers/Race.antt =====
-- `getOrCreateStripeCustomer` of src/billing/stripe-customer.service.ts in its steps, between which
-- other requests of the same user may run.
pub mod Laws
mod Rows
use conference_contact.Prelude.{
  ℕ, zero, suc, Option, none, some, List, [], ◌∷◌, ◌==◌, or_else, find_first, update_where,
  count_where, if◌then◌else◌,
}
use conference_contact.Schema.{Db}
use conference_contact.Customers.{customer_of, unbilled}

-- How far a request has come: it has read that there is no customer, has made one, or has not written
-- it because there was one; and how it ended.
pub data Request : Type 0 where
  start : Request
  without_customer : Request
  created : ℕ → Request
  lost : ℕ → Request
  returned : ℕ → Request
  failed : Request

abbrev pub customer_in : ℕ → Db → Option ℕ
customer_in user_id db = customer_of (find_first (λ u. u.id == user_id) db.users)

-- `updateMany`, where the customer is null
abbrev pub with_customer : ℕ → ℕ → Db → Db
with_customer user_id customer db = record db {
  users =
      update_where (unbilled user_id) (λ u. record u { stripe_customer_id = some customer })
        db.users;
}

-- `if (user?.stripeCustomerId) return …`
abbrev pub after_read : Option ℕ → Request
after_read none = without_customer
after_read (some customer) = returned customer

-- `customers.create`, which may throw
abbrev pub after_create : Option ℕ → Request
after_create none = failed
after_create (some customer) = created customer

-- One step of a request: a call of the database, or the one of Stripe, with its answer.
unfoldable pub next : ℕ → Option ℕ → Request → Db → Request × Db
next user_id answer start db = (after_read (customer_in user_id db), db)
next user_id answer without_customer db = (after_create answer, db)
next user_id answer (created customer) db = (
  if count_where (unbilled user_id) db.users == 0 then lost customer else returned customer,
  with_customer user_id customer db,
)
next user_id answer (lost customer) db = (returned (or_else (customer_in user_id db) customer), db)
next user_id answer (returned customer) db = (returned customer, db)
next user_id answer failed db = (failed, db)

-- A step of the request at an index.
unfoldable pub next_at : ℕ → ℕ → Option ℕ → List Request → Db → List Request × Db
unfolding next
next_at user_id i answer [] db = ([], db)
next_at user_id zero answer (r ∷ rs) db = let (r', db') = next user_id answer r db in (r' ∷ rs, db')
next_at user_id (suc i) answer (r ∷ rs) db =
    let (rs', db') = next_at user_id i answer rs db in (r ∷ rs', db')

-- The steps in their order: which request goes on, and what Stripe answers if it is asked.
abbrev pub interleaved : ℕ → List (ℕ × Option ℕ) → List Request × Db → List Request × Db
interleaved user_id [] state = state
interleaved user_id ((i, answer) ∷ steps) state =
    interleaved user_id steps (next_at user_id i answer state.0 state.1)

-- requests that have just arrived
abbrev pub starts : ℕ → List Request
starts zero = []
starts (suc n) = start ∷ starts n
