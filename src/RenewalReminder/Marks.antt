-- ===== src/RenewalReminder/Marks.antt =====
-- Rows that are marked with the end of their period, one after the other: what is marked at the end.
use conference_contact.Prelude.{
  true_ne_false, ℕ, ◌⊎◌, inl, inr, Bool, true, false, not, ◌&&◌, ◌||◌, Option, some, List, [], ◌∷◌,
  ◌==◌, ◌≡◌, refl, any, is_value, filter_where, update_where, All, Bool-cases, arith, if◌then◌else◌,
}
use conference_contact.Prelude.Rows.Counts.{All-filter_where}

-- A table of subscriptions: the id and the end of the period of a row, the end that it is marked with,
-- and which rows a run looks at.
pub record Marking (A : Type 0) : Type 0 where
  pub id : A → ℕ
  pub end : A → ℕ
  pub mark : A → Option ℕ
  pub put : ℕ → A → A
  pub id-put : (e : ℕ) (r : A) → id (put e r) ≡ id r
  pub end-put : (e : ℕ) (r : A) → end (put e r) ≡ end r
  pub mark-put : (e : ℕ) (r : A) → mark (put e r) ≡ some e

module _ {A : Type 0} (t : Marking A) where
  abbrev pub is_done : A → Bool
  is_done r = is_value (t.mark r) (t.end r)

  -- what one round does to the table
  abbrev pub mark_row : A → List A → List A
  mark_row s rows =
      if is_done s then rows else update_where (λ r. t.id r == t.id s) (t.put (t.end s)) rows

  abbrev pub mark_rows : List A → List A → List A
  mark_rows [] rows = rows
  mark_rows (s ∷ ss) rows = mark_rows ss (mark_row s rows)

  -- The rows with the id of a row have its end, too.
  abbrev pub OneEnd : List A → A → Type 0
  OneEnd rows s = All (λ r. (t.id r == t.id s) ≡ true → (t.end r == t.end s) ≡ true) rows

  put-is_done : (e : ℕ) (r : A) → (t.end r == e) ≡ true → is_done (t.put e r) ≡ true
  put-is_done e r same = rw (t.mark-put e r, t.end-put e r) (ground (arith, same))

  update-OneEnd :
      (p : A → Bool) (e : ℕ) (s : A) (rows : List A)
      → OneEnd rows s
      → OneEnd (update_where p (t.put e) rows) s
  update-OneEnd p e s [] h = tt
  update-OneEnd p e s (r ∷ rows) (h, hs) = elim (Bool-cases (p r)) [
    | inl hit ↦ rw (hit, t.id-put e r, t.end-put e r) (h, update-OneEnd p e s rows hs)
    | inr miss ↦ rw miss (h, update-OneEnd p e s rows hs)
  ]

  mark_row-OneEnd : (s s' : A) (rows : List A) → OneEnd rows s' → OneEnd (mark_row s rows) s'
  mark_row-OneEnd s s' rows h = elim (Bool-cases (is_done s)) [
    | inl done ↦ rw done h
    | inr fresh ↦ rw fresh (update-OneEnd (λ r. t.id r == t.id s) (t.end s) s' rows h)
  ]

  mark_row-OneEnds :
      (s : A) (ss rows : List A) → All (OneEnd rows) ss → All (OneEnd (mark_row s rows)) ss
  mark_row-OneEnds s [] rows h = tt
  mark_row-OneEnds s (s' ∷ ss) rows (h, hs) =
      (mark_row-OneEnd s s' rows h, mark_row-OneEnds s ss rows hs)

  abbrev covers : A → A → Bool
  covers r s = t.id r == t.id s && not (is_done s)

  module _ (looked_at : A → Bool) where
    -- Each row that is looked at is marked, or has its round before it.
    abbrev Pending : List A → A → Type 0
    Pending ss r = (looked_at r ≡ false) ⊎ ((is_done r || any (covers r) ss) ≡ true)

    pending_step :
        (s : A) (ss : List A) (r : A)
        → ((t.id r == t.id s) ≡ true → (t.end r == t.end s) ≡ true)
        → is_done s ≡ false
        → Pending (s ∷ ss) r
        → Pending ss (if t.id r == t.id s then t.put (t.end s) r else r)
    pending_step s ss r one fresh p = elim (Bool-cases (t.id r == t.id s)) [
      | inl hit ↦ rw hit (inr (rw (put-is_done (t.end s) r (one hit)) refl))
      | inr miss ↦
          rw miss
            (elim p [ inl unseen ↦ inl unseen | inr waits ↦ inr (ground (arith, waits, miss)) ])
    ]

    pending_rows :
        (s : A) (ss rows : List A)
        → OneEnd rows s
        → is_done s ≡ false
        → All (Pending (s ∷ ss)) rows
        → All (Pending ss) (update_where (λ r. t.id r == t.id s) (t.put (t.end s)) rows)
    pending_rows s ss [] one fresh h = tt
    pending_rows s ss (r ∷ rows) (one, ones) fresh (h, hs) =
        (pending_step s ss r one fresh h, pending_rows s ss rows ones fresh hs)

    skip_round :
        (s : A) (ss rows : List A)
        → is_done s ≡ true
        → All (Pending (s ∷ ss)) rows
        → All (Pending ss) rows
    skip_round s ss [] done h = tt
    skip_round s ss (r ∷ rows) done (h, hs) = (
      elim h [ inl unseen ↦ inl unseen | inr waits ↦ inr (ground (arith, waits, done)) ],
      skip_round s ss rows done hs,
    )

    mark_rows-done :
        (ss rows : List A)
        → All (OneEnd rows) ss
        → All (Pending ss) rows
        → All (Pending []) (mark_rows ss rows)
    mark_rows-done [] rows one h = h
    mark_rows-done (s ∷ ss) rows (one, ones) h =
        mark_rows-done ss (mark_row s rows) (mark_row-OneEnds s ss rows ones)
          (elim (Bool-cases (is_done s)) [
            | inl done ↦ rw done (skip_round s ss rows done h)
            | inr fresh ↦ rw fresh (pending_rows s ss rows one fresh h)
          ])

    covers_self : (r : A) → is_done r ≡ false → covers r r ≡ true
    covers_self r fresh = rw fresh (ground arith)

    starts_in :
        (due : A → Bool) (xs ys : List A)
        → ((r : A) → any (covers r) (filter_where due xs) ≡ true → any (covers r) ys ≡ true)
        → All (λ r. looked_at r ≡ true → due r ≡ true) xs
        → All (Pending ys) xs
    starts_in due [] ys part h = tt
    starts_in due (x ∷ xs) ys part (h, hs) = (
      elim (Bool-cases (looked_at x)) [
        | inr unseen ↦ inl unseen
        | inl seen ↦ elim (Bool-cases (is_done x)) [
          | inl done ↦ inr (rw done refl)
          | inr fresh ↦ inr (rw fresh (part x (rw (h seen) (ground (arith, covers_self x fresh)))))
        ]
      ],
      starts_in due xs ys
          (λ r k. part r (elim (Bool-cases (due x)) [
            | inl here ↦ rw here (ground (arith, k))
            | inr not_here ↦ rw not_here k
          ]))
          hs,
    )

    done_rows :
        (rows : List A)
        → All (Pending []) rows
        → All (λ r. is_done r ≡ true) (filter_where looked_at rows)
    done_rows [] h = tt
    done_rows (r ∷ rows) (h, hs) = elim (Bool-cases (looked_at r)) [
      | inl seen ↦ rw seen (elim h [
        | inl unseen ↦ absurd (true_ne_false unseen seen)
        | inr done ↦ (ground (arith, done), done_rows rows hs)
      ])
      | inr unseen ↦ rw unseen (done_rows rows hs)
    ]

    -- After a round for each row that was due, the rows that a later run looks at are marked, when no
    -- others have become due.
    pub marked :
        (due : A → Bool) (rows : List A)
        → All (OneEnd rows) rows
        → All (λ r. looked_at r ≡ true → due r ≡ true) rows
        → All
            (λ r. is_done r ≡ true)
            (filter_where looked_at (mark_rows (filter_where due rows) rows))
    marked due rows one no_others = done_rows (mark_rows (filter_where due rows) rows) (
        mark_rows-done (filter_where due rows) rows (All-filter_where (OneEnd rows) due rows one)
          (starts_in due rows (filter_where due rows) (λ r k. k) no_others))
