-- ===== src/Admin/Revenue.antt =====
-- `getMonthlyRevenue` and `attachBillingSummary` of src/admin/admin.service.ts. `month_of` is
-- `toISOString().slice(0, 7)` of a date, as a number that orders as that text does.
pub mod Laws
use conference_contact.Prelude.{
  ℕ, ◌+◌, String, Bool, true, false, ◌&&◌, Option, none, some, List, [], ◌∷◌, ◌++◌, ◌==◌, ltb, map,
  any, filter_where, is_some, or_else, if◌then◌else◌,
}
use conference_contact.Schema.{Db}
use conference_contact.Schema.Billing.{CreditGrant, Invoice, InvoiceStatus, paid}

abbrev pub is_paid : InvoiceStatus → Bool
is_paid paid = true
is_paid _ = false

-- an entry of `byMonth`
pub record MonthRow : Type 0 where
  pub month : ℕ
  pub directory_cents : ℕ
  pub lead_finder_cents : ℕ
  pub currency : String
  pub invoice_count : ℕ
  pub credit_grant_count : ℕ

abbrev pub empty_row : ℕ → MonthRow
empty_row month = record {
  month = month;
  directory_cents = 0;
  lead_finder_cents = 0;
  currency = "usd";
  invoice_count = 0;
  credit_grant_count = 0;
}

-- `monthRow(month)`, and what is done to the row: the row of the month, or a new one behind the others
abbrev pub on_month : ℕ → (MonthRow → MonthRow) → List MonthRow → List MonthRow
on_month month f [] = f (empty_row month) ∷ []
on_month month f (r ∷ rs) =
    let rest = on_month month f rs in if r.month == month then f r ∷ rs else r ∷ rest

abbrev pub with_invoice : Invoice → MonthRow → MonthRow
with_invoice i r = record r {
  directory_cents = r.directory_cents + i.amount_cents;
  currency = i.currency;
  invoice_count = r.invoice_count + 1;
}

abbrev pub with_grant : CreditGrant → MonthRow → MonthRow
with_grant g r = record r {
  lead_finder_cents = r.lead_finder_cents + or_else g.amount_paid_cents 0;
  credit_grant_count = r.credit_grant_count + 1;
}

-- `b.month.localeCompare(a.month)`: the newest month first
abbrev pub insert_month : MonthRow → List MonthRow → List MonthRow
insert_month r [] = r ∷ []
insert_month r (s ∷ ss) =
    let rest = insert_month r ss in if ltb r.month s.month then s ∷ rest else r ∷ s ∷ ss

abbrev pub newest_first : List MonthRow → List MonthRow
newest_first [] = []
newest_first (r ∷ rs) = insert_month r (newest_first rs)

-- `status: 'PAID', paidAt: { not: null }`
abbrev pub collected : Invoice → Bool
collected i = is_paid i.status && is_some i.paid_at

abbrev pub paid_grant : CreditGrant → Bool
paid_grant g = is_some g.amount_paid_cents

-- The total of a row, which the code writes beside the parts.
abbrev pub total_cents : MonthRow → ℕ
total_cents r = r.directory_cents + r.lead_finder_cents

module _ (month_of : ℕ → ℕ) where
  abbrev pub add_invoices : List Invoice → List MonthRow → List MonthRow
  add_invoices [] rows = rows
  add_invoices (i ∷ is) rows =
      add_invoices is (on_month (month_of (or_else i.paid_at 0)) (with_invoice i) rows)

  abbrev pub add_grants : List CreditGrant → List MonthRow → List MonthRow
  add_grants [] rows = rows
  add_grants (g ∷ gs) rows = add_grants gs (on_month (month_of g.created_at) (with_grant g) rows)

  abbrev pub get_monthly_revenue : Db → List MonthRow
  get_monthly_revenue db = newest_first (
      add_grants (filter_where paid_grant db.credit_grants)
        (add_invoices (filter_where collected db.invoices) []))

abbrev pub sum_by {ℓ} : {A : Type ℓ} → (A → ℕ) → List A → ℕ
sum_by f [] = 0
sum_by f (x ∷ xs) = f x + sum_by f xs

-- what `attachBillingSummary` adds to a user
pub record BillingSummary : Type 0 where
  pub credits_purchased : ℕ
  pub lifetime_paid_cents : ℕ

-- the paid invoices of a subscription
abbrev paid_by_subscription : ℕ → Db → ℕ
paid_by_subscription id db =
    sum_by (λ i. i.amount_cents)
      (filter_where (λ i. i.subscription_id == id && is_paid i.status) db.invoices)

abbrev pub billing_summary : ℕ → Db → BillingSummary
billing_summary user_id db = record {
  credits_purchased =
      sum_by (λ g. g.credits) (filter_where (λ g. g.user_id == user_id) db.credit_grants);
  lifetime_paid_cents =
      sum_by (λ g. or_else g.amount_paid_cents 0)
        (filter_where (λ g. g.user_id == user_id) db.credit_grants)
      + sum_by (λ s. paid_by_subscription s.id db)
          (filter_where (λ s. s.user_id == user_id) db.subscriptions);
}
