-- ===== src/Customers.antt =====
-- src/billing/stripe-customer.service.ts, and the call that both billing services make to start a
-- checkout. `getOrCreateStripeCustomer` runs alone here;
-- Race has its steps.
pub mod Race
use conference_contact.Prelude.{
  ℕ, String, Bool, ◌&&◌, not, Option, none, some, ◌==◌, is_some, or_else, find_first, update_where,
  count_where, if◌then◌else◌,
}
use conference_contact.Schema.{CheckoutRequest, stripe_checkout}
use conference_contact.Schema.Accounts.{User}
use conference_contact.Action.{
  Action, bad_request, stripe_failure, pure, gets, or_raise, modify, emit, ◌>>=◌, ◌>>◌,
}
use conference_contact.Stripe.{Env}

-- `user?.stripeCustomerId`
abbrev pub customer_of : Option User → Option ℕ
customer_of none = none
customer_of (some u) = u.stripe_customer_id

abbrev pub unbilled : ℕ → User → Bool
unbilled user_id u = u.id == user_id && not (is_some u.stripe_customer_id)

module _ (env : Env) where
  -- The branch without a customer.
  unfoldable pub create_customer : ℕ → Action ℕ
  create_customer user_id = do
    customer ← or_raise (env.stripe.create_customer user_id) stripe_failure
    count ← gets (λ db. count_where (unbilled user_id) db.users)
    modify λ db. record db {
      users =
          update_where (unbilled user_id) (λ u. record u { stripe_customer_id = some customer })
            db.users;
    }
    winner ← gets (λ db. customer_of (find_first (λ u. u.id == user_id) db.users))
    pure (if count == 0 then or_else winner customer else customer)

  abbrev pub reuse_customer : Option ℕ → ℕ → Action ℕ
  reuse_customer (some customer) user_id = pure customer
  reuse_customer none user_id = create_customer user_id

  unfoldable pub get_or_create_stripe_customer : ℕ → Action ℕ
  unfolding create_customer
  get_or_create_stripe_customer user_id = do
    existing ← gets (λ db. customer_of (find_first (λ u. u.id == user_id) db.users))
    reuse_customer existing user_id

  -- `checkout.sessions.create`, and the test on the URL
  unfoldable pub open_session : CheckoutRequest → Action String
  open_session request = do
    url ← or_raise (env.stripe.create_session request.price request.quantity) stripe_failure
    emit (stripe_checkout request)
    or_raise url bad_request
