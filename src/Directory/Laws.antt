-- ===== src/Directory/Laws.antt =====
-- What subscribers see of the directory.
use conference_contact.Prelude.{
  ℕ, map, ap, ◌∙◌, ◌*◌, ◌≤◌, ◌≡◌, refl, Bool, true, false, some, none, List, [], ◌∷◌, ◌++◌, ◌==◌,
  length, find_first, filter_where, update_where, Bool-cases, inl, inr, arith, if◌then◌else◌,
}
use conference_contact.Prelude.Rows.Counts.{length-filter_where}
use conference_contact.Prelude.Rows.Updates.{find_first-append}
use conference_contact.Schema.{Db}
use conference_contact.Schema.Admin.{Lead}
use conference_contact.Action.{ok, ◌>>=◌}
use conference_contact.Directory.{
  Collation, LeadFilters, LeadDto, build_where, matching, list, count_leads, exported, new_lead,
  submit_self, find_lead, approve_lead, approved_lead,
}
use conference_contact.Directory.Order.{IsOrdered, same_views}
use conference_contact.Pages.{pages, rows_of_page, map-rows_of_page, views_all}
use mathlib.Core.List.{Mem, Perm, Permᴰ}
use mathlib.Core.Logic.{∥∥₁_elim}
use native.Mathlib.Nat.{ℕ_set}

-- How many rows an order has.
length-map : {A B : Type 0} (view : A → B) (xs : List A) → length (map view xs) ≡ length xs
length-map view [] = refl
length-map view (x ∷ xs) = omega (arith, length-map view xs)

length-permᴰ : {l rows : List Lead} → Permᴰ l rows → length l ≡ length rows
length-permᴰ Permᴰ.nil = refl
length-permᴰ (Permᴰ.cons e d) = omega (arith, length-permᴰ d)
length-permᴰ (Permᴰ.swap e e') = refl
length-permᴰ (Permᴰ.trans d d') = length-permᴰ d ∙ length-permᴰ d'

length-perm : (l rows : List Lead) → Perm l rows → length l ≡ length rows
length-perm l rows p = ∥∥₁_elim p (ℕ_set (length l) (length rows)) length-permᴰ

-- Each query puts the rows that match in some order by name, and may put rows of the same name in
-- another order than the query before. Enough pages of the directory, each of its own query, then
-- show what the export writes, as far as it is decided by the place of the name in the order among
-- the rows that match, and in the same order. The number of the rows that the export writes is the
-- count of the directory.
pub directory_pages :
    {B : Type 0} (db_text : Collation) (f : LeadFilters) (db : Db) (view : Lead → B) (turn : ℕ → ℕ)
    (last size n : ℕ)
    → ((query : ℕ)
        → Perm (db_text.by_name query (matching db_text f db)) (matching db_text f db)
          × IsOrdered (λ l. db_text.rank l.name) (db_text.by_name query (matching db_text f db)))
    → ((x y : Lead)
        → Mem x (matching db_text f db)
        → Mem y (matching db_text f db)
        → db_text.rank x.name ≡ db_text.rank y.name
        → view x ≡ view y)
    → count_leads db_text f db ≤ n * size
    → (map view (pages (λ q. list db_text (turn q.page) f db q) size n)
        ≡ map view (exported db_text last f db))
      × (length (exported db_text last f db) ≡ count_leads db_text f db)
directory_pages db_text f db view turn last size n ordered by_name_only enough =
    let rows = matching db_text f db in
    let out = exported db_text last f db in
    let long =
      length-perm out rows (ordered last).0
      ∙ length-filter_where (build_where db_text f) db.leads in
    let same : (query : ℕ) → map view (db_text.by_name query rows) ≡ map view out = λ query.
      same_views (λ l. db_text.rank l.name) view rows (db_text.by_name query rows) out by_name_only
        (ordered query) (ordered last) in
    (
      views_all view (λ q. list db_text (turn q.page) f db q) (map view out)
          (λ q.
            map-rows_of_page view q (db_text.by_name (turn q.page) rows)
            ∙ ap (rows_of_page q) (same (turn q.page)))
          size n (omega (arith, long, length-map view out, enough)),
      long,
    )

append_nothing : (xs : List Lead) → xs ++ [] ≡ xs
append_nothing [] = refl
append_nothing (x ∷ xs) = ap (λ zs. x ∷ zs) (append_nothing xs)

filter_where-append :
    (p : Lead → Bool) (xs ys : List Lead)
    → filter_where p (xs ++ ys) ≡ filter_where p xs ++ filter_where p ys
filter_where-append p [] ys = refl
filter_where-append p (x ∷ xs) ys = elim (Bool-cases (p x)) [
  | inl kept ↦ rw kept (ap (λ zs. x ∷ zs) (filter_where-append p xs ys))
  | inr dropped ↦ rw dropped (filter_where-append p xs ys)
]

update_where-append-missing :
    (p : Lead → Bool) (f : Lead → Lead) (xs : List Lead) (x : Lead)
    → find_first p xs ≡ none
    → p x ≡ true
    → update_where p f (xs ++ x ∷ []) ≡ xs ++ f x ∷ []
update_where-append-missing p f [] x missing here = rw here refl
update_where-append-missing p f (y ∷ ys) x missing here = elim (Bool-cases (p y)) [
  | inl there ↦ (let missing = rw there at missing in cc)
  | inr other ↦
      (let missing = rw other at missing in
        rw other (ap (λ zs. y ∷ zs) (update_where-append-missing p f ys x missing here)))
]

module _ (db_text : Collation) (now fresh user_id : ℕ) (dto : LeadDto) (db : Db) where
  -- A lead that a user submits with an id that no lead has is in no listing, whatever the filters.
  -- An administrator who approves it gets no error, and the listings then have it when the filters
  -- match the approved lead, and the other leads as before.
  pub submission_moderated :
      (admin : ℕ) (f : LeadFilters)
      → find_lead fresh db ≡ none
      → let db' = (submit_self now fresh user_id dto db).1 in
        let (result, db'') = approve_lead admin fresh db' in
        let lead = new_lead now fresh true (some user_id) dto in
        (matching db_text f db' ≡ matching db_text f db)
        × (result ≡ ok lead)
        × (matching db_text f db''
            ≡ matching db_text f db ++ (if build_where db_text f lead then lead ∷ [] else []))
  unfolding submit_self approve_lead ◌>>=◌
  submission_moderated admin f missing =
      let submitted = new_lead now fresh false (some user_id) dto in
      let own : (fresh == fresh) ≡ true = ground arith in
      let found = find_first-append (λ l. l.id == fresh) db.leads submitted missing in
      let moved =
        update_where-append-missing (λ l. l.id == fresh) approved_lead db.leads submitted missing
          own in
      (
        filter_where-append (build_where db_text f) db.leads (submitted ∷ [])
            ∙ append_nothing (matching db_text f db),
        rw (found, own) refl,
        rw (found, own, moved)
            (filter_where-append (build_where db_text f) db.leads (approved_lead submitted ∷ [])),
      )
