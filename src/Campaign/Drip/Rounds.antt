-- ===== src/Campaign/Drip/Rounds.antt =====
-- The loop of `runDailyDrip` over its candidates: what it collects, and what it makes of the rows.
use conference_contact.Prelude.{
  ℕ, ◌+◌, ◌≤◌, ◌≡◌, refl, String, Bool, true, ◌&&◌, ◌||◌, List, [], ◌∷◌, ◌++◌, ◌==◌, ap, length,
  length-append, sort_by, find_first, filter_where, update_where, count_where, is_some, All, arith,
  Bool-cases, Option-cases, inl, inr, if◌then◌else◌,
}
use text.Mathlib.Text.{◌==◌ as str_eq}
use conference_contact.Prelude.Rows.Counts.{
  count_where-sort_by, count_where-append, count_where-take-le, count_where-filter_where,
  count_where-update_where, count_where-update_where-le, All-filter_where, All-sort_by, All-take,
}
use conference_contact.Prelude.Rows.Updates.{find_first-update_where}
use conference_contact.Prelude.Sets.{has}
use conference_contact.Prelude.Sets.Laws.{str_eq-path}
use conference_contact.Schema.{Db}
use conference_contact.Schema.Leads.{
  Prospect, ProspectStatus, skipped_existing_user, skipped_unsubscribed,
}
use conference_contact.Action.{ok, ◌>>=◌}
use conference_contact.Campaign.Drip.{
  Sorted, is_pending, batch_of, with_status, sort_candidate, sort_candidates,
}

abbrev pub row_of : String → Prospect → Bool
row_of a r = str_eq a r.email

-- A row of an address that waits to be sent.
abbrev pub waits : String → Prospect → Bool
waits a r = is_pending r && row_of a r

abbrev pub Present : List Prospect → Prospect → Type 0
Present rows c = is_some (find_first (λ r. r.id == c.id) rows) ≡ true

module _ (existing suppressed : List String) where
  -- What one round adds to what was collected.
  abbrev pub collect_one : Prospect → Sorted → Sorted
  collect_one c acc =
      if has existing c.email
      then record acc { skipped_existing = acc.skipped_existing + 1 }
      else if has suppressed c.email
      then record acc { skipped_unsubscribed = acc.skipped_unsubscribed + 1 }
      else record acc { to_send = acc.to_send ++ c.email ∷ [] }

  abbrev pub collect : List Prospect → Sorted → Sorted
  collect [] acc = acc
  collect (c ∷ cs) acc = collect cs (collect_one c acc)

  -- What one round makes of the rows.
  abbrev pub skip_one : Prospect → List Prospect → List Prospect
  skip_one c rows =
      if has existing c.email
      then update_where (λ r. r.id == c.id) (with_status skipped_existing_user) rows
      else if has suppressed c.email
      then update_where (λ r. r.id == c.id) (with_status skipped_unsubscribed) rows
      else rows

  abbrev pub skip_rows : List Prospect → List Prospect → List Prospect
  skip_rows [] rows = rows
  skip_rows (c ∷ cs) rows = skip_rows cs (skip_one c rows)

  sort_candidate_lem :
      (c : Prospect) (acc : Sorted) (db : Db)
      → Present db.prospects c
      → sort_candidate existing suppressed c acc db
        ≡ (ok (collect_one c acc), record db { prospects = skip_one c db.prospects })
  unfolding sort_candidate ◌>>=◌
  sort_candidate_lem c acc db here =
      elim (Option-cases (find_first (λ r. r.id == c.id) db.prospects)) [
        | inl e ↦ ground (arith, e, here)
        | inr (row, e) ↦ elim (Bool-cases (has existing c.email)) [
          | inl user ↦ rw (user, e) refl
          | inr other ↦ elim (Bool-cases (has suppressed c.email)) [
            | inl gone ↦ rw (other, gone, e) refl
            | inr fresh ↦ rw (other, fresh) refl
          ]
        ]
      ]

  Present-update_where :
      (id : ℕ) (status : ProspectStatus) (rows : List Prospect) (c : Prospect)
      → Present rows c
      → Present (update_where (λ r. r.id == id) (with_status status) rows) c
  Present-update_where id status rows c here =
      let moved =
        find_first-update_where (λ r. r.id == c.id) (λ r. r.id == id) (with_status status)
          (λ r. refl) rows in
      elim (Option-cases (find_first (λ r. r.id == c.id) rows)) [
        | inl e ↦ ground (arith, e, here)
        | inr (row, e) ↦ rw (moved, e) refl
      ]

  Present-skip_one :
      (c : Prospect) (rows : List Prospect) (cs : List Prospect)
      → All (Present rows) cs
      → All (Present (skip_one c rows)) cs
  Present-skip_one c rows [] here = tt
  Present-skip_one c rows (d ∷ ds) (here, rest) = (
    elim (Bool-cases (has existing c.email)) [
      | inl user ↦ rw user (Present-update_where c.id skipped_existing_user rows d here)
      | inr other ↦ elim (Bool-cases (has suppressed c.email)) [
        | inl gone ↦ rw (other, gone) (Present-update_where c.id skipped_unsubscribed rows d here)
        | inr fresh ↦ rw (other, fresh) here
      ]
    ],
    Present-skip_one c rows ds rest,
  )

  -- The loop returns when the rows of its candidates are in the table.
  pub sort_candidates_lem :
      (cs : List Prospect) (acc : Sorted) (db : Db)
      → All (Present db.prospects) cs
      → sort_candidates existing suppressed cs acc db
        ≡ (ok (collect cs acc), record db { prospects = skip_rows cs db.prospects })
  unfolding sort_candidates ◌>>=◌
  sort_candidates_lem [] acc db here = refl
  sort_candidates_lem (c ∷ cs) acc db (here, rest) =
      let first = sort_candidate_lem c acc db here in
      let db' = record db { prospects = skip_one c db.prospects } in
      let ih =
        sort_candidates_lem cs (collect_one c acc) db' (Present-skip_one c db.prospects cs rest) in
      rw (first, ih) refl

  -- Every candidate is sent to or skipped.
  pub collect-length :
      (cs : List Prospect) (acc : Sorted)
      → length (collect cs acc).to_send
          + (collect cs acc).skipped_existing
          + (collect cs acc).skipped_unsubscribed
        ≡ length acc.to_send + acc.skipped_existing + acc.skipped_unsubscribed + length cs
  collect-length [] acc = omega arith
  collect-length (c ∷ cs) acc =
      let ih = collect-length cs (collect_one c acc) in
      let longer = length-append acc.to_send (c.email ∷ []) in ground (arith, ih, longer)

  -- An address is sent to no more often than it has candidates.
  pub collect-count :
      (a : String) (cs : List Prospect) (acc : Sorted)
      → count_where (str_eq a) (collect cs acc).to_send
        ≤ count_where (str_eq a) acc.to_send + count_where (row_of a) cs
  collect-count a [] acc = omega arith
  collect-count a (c ∷ cs) acc =
      let ih = collect-count a cs (collect_one c acc) in
      let more = count_where-append (str_eq a) acc.to_send (c.email ∷ []) in
      ground (arith, ih, more)

  -- An address of a user, or one that is suppressed, is not sent to.
  pub collect_skips :
      (a : String) (cs : List Prospect) (acc : Sorted)
      → (has existing a || has suppressed a) ≡ true
      → count_where (str_eq a) (collect cs acc).to_send ≡ count_where (str_eq a) acc.to_send
  collect_skips a [] acc known = refl
  collect_skips a (c ∷ cs) acc known =
      let ih = collect_skips a cs (collect_one c acc) known in
      let more = count_where-append (str_eq a) acc.to_send (c.email ∷ []) in
      elim (Bool-cases (str_eq a c.email)) [
        | inl same ↦
            (let same' = ap (has existing) (str_eq-path a c.email same) in
              let same'' = ap (has suppressed) (str_eq-path a c.email same) in
              ground (arith, ih, known, same', same''))
        | inr different ↦ ground (arith, ih, more, different)
      ]

  skip_one-rows :
      (p : Prospect → Bool)
      → ((status : ProspectStatus) (r : Prospect) → p (with_status status r) ≡ p r)
      → (c : Prospect) (rows : List Prospect) → count_where p (skip_one c rows) ≡ count_where p rows
  skip_one-rows p same c rows =
      let user =
        count_where-update_where p (λ r. r.id == c.id) (with_status skipped_existing_user)
          (same skipped_existing_user) rows in
      let gone =
        count_where-update_where p (λ r. r.id == c.id) (with_status skipped_unsubscribed)
          (same skipped_unsubscribed) rows in
      ground (arith, user, gone)

  pub skip_rows-rows :
      (a : String) (cs rows : List Prospect)
      → count_where (row_of a) (skip_rows cs rows) ≡ count_where (row_of a) rows
  skip_rows-rows a [] rows = refl
  skip_rows-rows a (c ∷ cs) rows =
      omega (
        arith,
        skip_rows-rows a cs (skip_one c rows),
        skip_one-rows (row_of a) (λ s r. refl) c rows,
      )

  skip_one-waits :
      (a : String) (c : Prospect) (rows : List Prospect)
      → count_where (waits a) (skip_one c rows) ≤ count_where (waits a) rows
  skip_one-waits a c rows =
      let user =
        count_where-update_where-le (waits a) (λ r. r.id == c.id)
          (with_status skipped_existing_user) (λ r h. cc) rows in
      let gone =
        count_where-update_where-le (waits a) (λ r. r.id == c.id) (with_status skipped_unsubscribed)
          (λ r h. cc) rows in
      ground (arith, user, gone)

  pub skip_rows-waits :
      (a : String) (cs rows : List Prospect)
      → count_where (waits a) (skip_rows cs rows) ≤ count_where (waits a) rows
  skip_rows-waits a [] rows = omega arith
  skip_rows-waits a (c ∷ cs) rows =
      omega (arith, skip_rows-waits a cs (skip_one c rows), skip_one-waits a c rows)

Present-later :
    (r : Prospect) (rows cs : List Prospect) → All (Present rows) cs → All (Present (r ∷ rows)) cs
Present-later r rows [] all = tt
Present-later r rows (c ∷ cs) (here, all) = (ground arith, Present-later r rows cs all)

rows-Present : (rows : List Prospect) → All (Present rows) rows
rows-Present [] = tt
rows-Present (r ∷ rows) = (ground arith, Present-later r rows rows (rows-Present rows))

-- A batch is made of rows of the table.
pub batch-Present : (cap : ℕ) (rows : List Prospect) → All (Present rows) (batch_of cap rows)
batch-Present cap rows =
    let waiting = filter_where is_pending rows in
    All-take (Present rows) cap (sort_by (λ r. r.created_at) waiting) (
      All-sort_by (Present rows) (λ r. r.created_at) waiting
        (All-filter_where (Present rows) is_pending rows (rows-Present rows)))

-- An address has no more rows in a batch than rows that wait.
pub batch-count :
    (a : String) (cap : ℕ) (rows : List Prospect)
    → count_where (row_of a) (batch_of cap rows) ≤ count_where (waits a) rows
batch-count a cap rows =
    let waiting = filter_where is_pending rows in
    let shorter = count_where-take-le (row_of a) cap (sort_by (λ r. r.created_at) waiting) in
    let sorted = count_where-sort_by (row_of a) (λ r. r.created_at) waiting in
    let filtered = count_where-filter_where (row_of a) is_pending rows in
    omega (arith, shorter, sorted, filtered)
