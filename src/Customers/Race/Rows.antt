-- ===== src/Customers/Race/Rows.antt =====
-- The write of the first customer, on the table of users.
use conference_contact.Prelude.{
  ℕ, ◌≤◌, ◌≡◌, true, false, Option, some, List, [], ◌∷◌, ◌==◌, inl, inr, Bool-cases, is_some,
  find_first, update_where, count_where, arith,
}
use conference_contact.Schema.Accounts.{User}
use conference_contact.Customers.{customer_of, unbilled}

abbrev pub billed : ℕ → User → User
billed customer u = record u { stripe_customer_id = some customer }

module _ (user_id : ℕ) where
  abbrev customer_among : List User → Option ℕ
  customer_among users = customer_of (find_first (λ u. u.id == user_id) users)

  unbilled-le :
      (users : List User)
      → count_where (unbilled user_id) users ≤ count_where (λ u. u.id == user_id) users
  unbilled-le [] = omega arith
  unbilled-le (u ∷ users) = ground (arith, unbilled-le users)

  -- A customer that is there stays.
  pub customer_kept :
      (other customer : ℕ) (users : List User)
      → customer_among users ≡ some customer
      → customer_among (update_where (unbilled user_id) (billed other) users) ≡ some customer
  customer_kept other customer [] h = h
  customer_kept other customer (u ∷ users) h = elim (Bool-cases (u.id == user_id)) [
    | inr miss ↦
        ground (arith, miss, h, customer_kept other customer users (ground (arith, h, miss)))
    | inl hit ↦ (elim (Bool-cases (is_some u.stripe_customer_id)) [
      | inl has ↦ ground (arith, hit, has, h)
      | inr null ↦ ground (arith, hit, null, h)
    ])
  ]

  -- The write that found a row without a customer is the customer of the only row.
  pub customer_written :
      (customer : ℕ) (users : List User)
      → count_where (λ u. u.id == user_id) users ≡ 1
      → (count_where (unbilled user_id) users == 0) ≡ false
      → customer_among (update_where (unbilled user_id) (billed customer) users) ≡ some customer
  customer_written customer [] one some_row = cc
  customer_written customer (u ∷ users) one some_row = elim (Bool-cases (u.id == user_id)) [
    | inr miss ↦ ground (
      arith,
      miss,
      customer_written customer users (ground (arith, one, miss)) (ground (arith, some_row, miss)),
    )
    | inl hit ↦ (elim (Bool-cases (is_some u.stripe_customer_id)) [
      | inl has ↦ absurd (ground (arith, one, some_row, hit, has, unbilled-le users))
      | inr null ↦ ground (arith, hit, null)
    ])
  ]

  pub customer_there :
      (users : List User)
      → count_where (λ u. u.id == user_id) users ≡ 1
      → (count_where (unbilled user_id) users == 0) ≡ true
      → is_some (customer_among users) ≡ true
  customer_there [] one none_left = absurd (omega (arith, one))
  customer_there (u ∷ users) one none_left = elim (Bool-cases (u.id == user_id)) [
    | inr miss ↦ ground (
      arith,
      miss,
      customer_there users (ground (arith, one, miss)) (ground (arith, none_left, miss)),
    )
    | inl hit ↦ (elim (Bool-cases (is_some u.stripe_customer_id)) [
      | inl has ↦ ground (arith, hit, has)
      | inr null ↦ absurd (ground (arith, none_left, hit, null))
    ])
  ]
