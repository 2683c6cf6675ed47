-- ===== src/Campaign/Drip/Settled.antt =====
-- What the loop of `runDailyDrip` makes of one row, which a run leaves pending only when it is not
-- of the batch.
use conference_contact.Prelude.{
  ◌≤◌, ◌≡◌, refl, ◌∙◌, String, Bool, true, ◌&&◌, List, [], ◌∷◌, ◌==◌, any, update_where,
  count_where, arith, Bool-cases, inl, inr, if◌then◌else◌,
}
use text.Mathlib.Text.{◌==◌ as str_eq}
use conference_contact.Prelude.Sets.{has, any-append}
use conference_contact.Prelude.Sets.Laws.{str_eq_sym}
use conference_contact.Schema.Leads.{Prospect, skipped_existing_user, skipped_unsubscribed}
use conference_contact.Campaign.Drip.{Sorted, is_pending, with_status}
use conference_contact.Campaign.Drip.Rounds.{collect_one, collect, skip_one, skip_rows}

module _ {ℓ} {A : Type ℓ} where
  pub count_where-le :
      (p q : A → Bool)
      → ((a : A) → p a ≡ true → q a ≡ true)
      → (xs : List A) → count_where p xs ≤ count_where q xs
  count_where-le p q wider [] = omega arith
  count_where-le p q wider (x ∷ xs) = ground (arith, wider x, count_where-le p q wider xs)

  pub count_where-updated :
      (p q : A → Bool) (f : A → A) (xs : List A)
      → count_where p (update_where q f xs) ≡ count_where (λ a. p (if q a then f a else a)) xs
  count_where-updated p q f [] = refl
  count_where-updated p q f (x ∷ xs) = ground (arith, count_where-updated p q f xs)

-- Two rows with the same id and address.
abbrev pub same_row : Prospect → Prospect → Bool
same_row c r = c.id == r.id && str_eq c.email r.email

any-same_row :
    (cs : List Prospect) (r r' : Prospect)
    → r'.id ≡ r.id
    → r'.email ≡ r.email
    → any (λ c. same_row c r') cs ≡ any (λ c. same_row c r) cs
any-same_row cs r r' id email = rw (id, email) refl

module _ (existing suppressed : List String) where
  -- What one round makes of one row, and what the loop makes of it.
  abbrev after_round : Prospect → Prospect → Prospect
  after_round c r =
      if has existing c.email
      then (if r.id == c.id then with_status skipped_existing_user r else r)
      else if has suppressed c.email
      then (if r.id == c.id then with_status skipped_unsubscribed r else r)
      else r

  pub after_loop : List Prospect → Prospect → Prospect
  after_loop [] r = r
  after_loop (c ∷ cs) r = after_loop cs (after_round c r)

  count_where-skip_one :
      (p : Prospect → Bool) (c : Prospect) (rows : List Prospect)
      → count_where p (skip_one existing suppressed c rows)
        ≡ count_where (λ r. p (after_round c r)) rows
  count_where-skip_one p c rows = elim (Bool-cases (has existing c.email)) [
    | inl user ↦
        rw user (count_where-updated p (λ r. r.id == c.id) (with_status skipped_existing_user) rows)
    | inr other ↦ elim (Bool-cases (has suppressed c.email)) [
      | inl gone ↦
          rw (other, gone)
            (count_where-updated p (λ r. r.id == c.id) (with_status skipped_unsubscribed) rows)
      | inr fresh ↦ rw (other, fresh) refl
    ]
  ]

  pub count_where-skip_rows :
      (p : Prospect → Bool) (cs rows : List Prospect)
      → count_where p (skip_rows existing suppressed cs rows)
        ≡ count_where (λ r. p (after_loop cs r)) rows
  unfolding after_loop
  count_where-skip_rows p [] rows = refl
  count_where-skip_rows p (c ∷ cs) rows =
      count_where-skip_rows p cs (skip_one existing suppressed c rows)
      ∙ count_where-skip_one (λ r. p (after_loop cs r)) c rows

  after_round-keys :
      (c r : Prospect) → ((after_round c r).id ≡ r.id) × ((after_round c r).email ≡ r.email)
  after_round-keys c r = ground arith

  pub after_loop-email : (cs : List Prospect) (r : Prospect) → (after_loop cs r).email ≡ r.email
  unfolding after_loop
  after_loop-email [] r = refl
  after_loop-email (c ∷ cs) r = after_loop-email cs (after_round c r) ∙ (after_round-keys c r).1

  after_round-pending : (c r : Prospect) → is_pending (after_round c r) ≡ true → is_pending r ≡ true
  after_round-pending c r h = ground arith

  pub after_loop-pending :
      (cs : List Prospect) (r : Prospect)
      → is_pending (after_loop cs r) ≡ true
      → is_pending r ≡ true
  unfolding after_loop
  after_loop-pending [] r h = h
  after_loop-pending (c ∷ cs) r h =
      after_round-pending c r (after_loop-pending cs (after_round c r) h)

  -- What was collected stays collected.
  collect-grows :
      (cs : List Prospect) (acc : Sorted) (a : String)
      → has acc.to_send a ≡ true
      → has (collect existing suppressed cs acc).to_send a ≡ true
  collect-grows [] acc a there = there
  collect-grows (c ∷ cs) acc a there =
      collect-grows cs (collect_one existing suppressed c acc) a
        (ground (arith, there, any-append (str_eq a) acc.to_send (c.email ∷ [])))

  after_round-sent :
      (c : Prospect) (acc : Sorted) (r : Prospect)
      → same_row c r ≡ true
      → is_pending (after_round c r) ≡ true
      → has (collect_one existing suppressed c acc).to_send r.email ≡ true
  after_round-sent c acc r this left =
      let added = any-append (str_eq r.email) acc.to_send (c.email ∷ []) in
      let same = str_eq_sym r.email c.email in
      elim (Bool-cases (has existing c.email)) [
        | inl user ↦ (let left = rw user at left in absurd (ground (arith, this, left)))
        | inr other ↦ elim (Bool-cases (has suppressed c.email)) [
          | inl gone ↦ (let left = rw (other, gone) at left in absurd (ground (arith, this, left)))
          | inr fresh ↦ rw (other, fresh) (ground (arith, added, same, this))
        ]
      ]

  -- A row of the batch that the loop leaves pending is sent to.
  pub after_loop-sent :
      (cs : List Prospect) (acc : Sorted) (r : Prospect)
      → any (λ c. same_row c r) cs ≡ true
      → is_pending (after_loop cs r) ≡ true
      → has (collect existing suppressed cs acc).to_send r.email ≡ true
  unfolding after_loop
  after_loop-sent [] acc r none still = ground arith
  after_loop-sent (c ∷ cs) acc r found still =
      let (id, email) = after_round-keys c r in
      let left = after_loop-pending cs (after_round c r) still in
      elim (Bool-cases (same_row c r)) [
        | inl this ↦
            collect-grows cs (collect_one existing suppressed c acc) r.email
              (after_round-sent c acc r this left)
        | inr other ↦
            (let found' : any (λ c'. same_row c' r) cs ≡ true = ground (arith, found, other) in
              let ih =
                after_loop-sent cs (collect_one existing suppressed c acc) (after_round c r)
                  (any-same_row cs r (after_round c r) id email ∙ found') still in
              rw email at ih)
      ]
