-- ===== src/Admin/Revenue/Laws.antt =====
-- The months of the revenue account for every payment once.
use conference_contact.Prelude.{
  ℕ, ◌+◌, ◌≡◌, refl, List, [], ◌∷◌, filter_where, or_else, arith, Option-cases, inl, inr,
}
use conference_contact.Schema.{Db}
use conference_contact.Schema.Billing.{CreditGrant, Invoice}
use conference_contact.Admin.Revenue.{
  MonthRow, empty_row, on_month, with_invoice, with_grant, newest_first, insert_month, collected,
  paid_grant, add_invoices, add_grants, total_cents, get_monthly_revenue, sum_by,
}

-- A column that a change raises by an amount, from 0 in a new row, is raised by it over all months.
sum-on_month :
    (column : MonthRow → ℕ) (f : MonthRow → MonthRow) (amount : ℕ)
    → ((r : MonthRow) → column (f r) ≡ column r + amount)
    → ((m : ℕ) → column (empty_row m) ≡ 0)
    → (month : ℕ) (rows : List MonthRow)
    → sum_by column (on_month month f rows) ≡ sum_by column rows + amount
sum-on_month column f amount raises new month [] =
    omega (arith, raises (empty_row month), new month)
sum-on_month column f amount raises new month (r ∷ rs) =
    ground (arith, raises r, sum-on_month column f amount raises new month rs)

sum-insert_month :
    (column : MonthRow → ℕ) (r : MonthRow) (rows : List MonthRow)
    → sum_by column (insert_month r rows) ≡ column r + sum_by column rows
sum-insert_month column r [] = refl
sum-insert_month column r (s ∷ ss) = ground (arith, sum-insert_month column r ss)

sum-newest_first :
    (column : MonthRow → ℕ) (rows : List MonthRow)
    → sum_by column (newest_first rows) ≡ sum_by column rows
sum-newest_first column [] = refl
sum-newest_first column (r ∷ rs) =
    omega (arith, sum-newest_first column rs, sum-insert_month column r (newest_first rs))

module _ (month_of : ℕ → ℕ) where
  sum-add_invoices :
      (is : List Invoice) (rows : List MonthRow)
      → sum_by total_cents (add_invoices month_of is rows)
        ≡ sum_by total_cents rows + sum_by (λ i. i.amount_cents) is
  sum-add_invoices [] rows = omega arith
  sum-add_invoices (i ∷ is) rows =
      let month = month_of (or_else i.paid_at 0) in
      let one =
        sum-on_month total_cents (with_invoice i) i.amount_cents (λ r. omega arith) (λ m. refl)
          month rows in
      omega (arith, one, sum-add_invoices is (on_month month (with_invoice i) rows))

  sum-add_grants :
      (gs : List CreditGrant) (rows : List MonthRow)
      → sum_by total_cents (add_grants month_of gs rows)
        ≡ sum_by total_cents rows + sum_by (λ g. or_else g.amount_paid_cents 0) gs
  sum-add_grants [] rows = omega arith
  sum-add_grants (g ∷ gs) rows =
      let month = month_of g.created_at in
      let one =
        sum-on_month total_cents (with_grant g) (or_else g.amount_paid_cents 0) (λ r. omega arith)
          (λ m. refl) month rows in
      omega (arith, one, sum-add_grants gs (on_month month (with_grant g) rows))

  sum-paid_grant :
      (gs : List CreditGrant)
      → sum_by (λ g. or_else g.amount_paid_cents 0) (filter_where paid_grant gs)
        ≡ sum_by (λ g. or_else g.amount_paid_cents 0) gs
  sum-paid_grant [] = refl
  sum-paid_grant (g ∷ gs) = elim (Option-cases g.amount_paid_cents) [
    | inl e ↦ rw e (omega (arith, sum-paid_grant gs))
    | inr (n, e) ↦ rw e (omega (arith, sum-paid_grant gs))
  ]

  -- However dates fall into months, the totals of all months together are the amounts of all
  -- invoices that are paid with a date and of all grants of credits, a grant without a payment
  -- counting nothing: no payment is lost between months or counted twice.
  pub monthly_revenue_conserved :
      (db : Db)
      → sum_by total_cents (get_monthly_revenue month_of db)
        ≡ sum_by (λ i. i.amount_cents) (filter_where collected db.invoices)
          + sum_by (λ g. or_else g.amount_paid_cents 0) db.credit_grants
  monthly_revenue_conserved db =
      let invoices = filter_where collected db.invoices in
      let grants = filter_where paid_grant db.credit_grants in
      let billed = add_invoices month_of invoices [] in
      omega (
        arith,
        sum-newest_first total_cents (add_grants month_of grants billed),
        sum-add_grants grants billed,
        sum-add_invoices invoices [],
        sum-paid_grant db.credit_grants,
      )
