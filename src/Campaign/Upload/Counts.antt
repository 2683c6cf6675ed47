-- ===== src/Campaign/Upload/Counts.antt =====
-- How many rows an upload adds for an address.
use conference_contact.Prelude.{
  ℕ, ap, ◌+◌, ◌-◌, none, some, ◌≤◌, ◌≡◌, refl, String, Bool, true, false, not, ◌&&◌, List, [], ◌∷◌,
  ltb, length, count_where, filter_where, arith, Bool-cases, inl, inr, if◌then◌else◌,
}
use text.Mathlib.Text.{◌==◌ as str_eq}
use conference_contact.Prelude.Rows.Counts.{count_where-append, count_where-le-length}
use conference_contact.Prelude.Sets.{has, set_add}
use conference_contact.Prelude.Sets.Laws.{str_eq-path, has-count_where}
use conference_contact.Schema.{Db, audit}
use conference_contact.Campaign.{CampaignEnv}
use conference_contact.Campaign.Upload.{
  valid_of, found_in, user_emails, queued_emails, new_prospects,
}
use conference_contact.Campaign.Upload.Laws.{has-to_queue, queued_now, new_rows, uploaded}
use conference_contact.Campaign.Drip.Rounds.{row_of, waits}
use conference_contact.Campaign.Drip.Invitations.{
  is_invitation, invited, waiting, rows_of, has-emails,
}

module _ (a : String) where
  -- A set has a value at most once.
  count_where-set_add :
      (v : String) (set : List String)
      → count_where (str_eq a) set ≤ 1
      → count_where (str_eq a) (set_add v set) ≤ 1
  count_where-set_add v set few =
      let more = count_where-append (str_eq a) set (v ∷ []) in
      let counted = has-count_where a set in
      elim (Bool-cases (has set v)) [
        | inl there ↦ rw there few
        | inr new ↦ elim (Bool-cases (str_eq a v)) [
          | inl same ↦
              (let path = str_eq-path a v same in
                let e = ap (has set) path in rw new (ground (arith, more, counted, e, new)))
          | inr different ↦ rw new (ground (arith, more, different, few))
        ]
      ]

  count_where-valid_of :
      (is_email : String → Bool) (es valid : List String) (invalid : ℕ)
      → count_where (str_eq a) valid ≤ 1
      → count_where (str_eq a) (valid_of is_email es (valid, invalid)).0 ≤ 1
  count_where-valid_of is_email [] valid invalid few = few
  count_where-valid_of is_email (e ∷ es) valid invalid few =
      go (is_email e)
        (count_where-valid_of is_email es (set_add e valid) invalid
          (count_where-set_add e valid few))
        (count_where-valid_of is_email es valid (invalid + 1) few)
    where
      go :
          (b : Bool)
          → count_where (str_eq a) (valid_of is_email es (set_add e valid, invalid)).0 ≤ 1
          → count_where (str_eq a) (valid_of is_email es (valid, invalid + 1)).0 ≤ 1
          → count_where
              (str_eq a)
              (valid_of is_email es
                (if b then (set_add e valid, invalid) else (valid, invalid + 1))).0
            ≤ 1
      go true good bad = good
      go false good bad = bad

  count_where-filter-le :
      (p : String → Bool) (xs : List String)
      → count_where (str_eq a) (filter_where p xs) ≤ count_where (str_eq a) xs
  count_where-filter-le p [] = omega arith
  count_where-filter-le p (x ∷ xs) = ground (arith, count_where-filter-le p xs)

  new_prospects-rows :
      (now fresh admin : ℕ) (es : List String)
      → (count_where (row_of a) (new_prospects now fresh admin es) ≡ count_where (str_eq a) es)
        × (count_where (waits a) (new_prospects now fresh admin es) ≡ count_where (str_eq a) es)
  new_prospects-rows now fresh admin [] = (refl, refl)
  new_prospects-rows now fresh admin (e ∷ es) =
      let (ih, ih') = new_prospects-rows now (fresh + 1) admin es in
      (ground (arith, ih), ground (arith, ih'))

  module _ (env : CampaignEnv) (admin : ℕ) (emails : List String) (db : Db) where
    -- The new rows of an address, which all wait, are none when it has one, and one at most.
    pub uploaded-rows :
        (k : ℕ) × (rows_of a (uploaded env admin emails db) ≡ rows_of a db + k)
        × (waiting a (uploaded env admin emails db) ≡ waiting a db + k)
        × (k ≤ 1 - rows_of a db)
    uploaded-rows =
        let valid = (valid_of env.is_email emails ([], 0)).0 in
        let k = count_where (str_eq a) (queued_now env emails db) in
        let once = count_where-valid_of env.is_email emails [] 0 (omega arith) in
        let kept =
          count_where-filter-le
            (λ e.
              not (has (found_in (user_emails db) valid) e)
              && (not (has (found_in db.suppressions valid) e)
                  && not (has (found_in (queued_emails db) valid) e)))
            valid in
        let chosen = has-to_queue valid db a in
        let listed = has-emails a db.prospects in
        let counted = has-count_where a (queued_now env emails db) in
        let few : k ≤ 1 - rows_of a db = ground (arith, once, kept, chosen, listed, counted) in
        let (new, new') = new_prospects-rows env.now env.fresh admin (queued_now env emails db) in
        let grown = count_where-append (row_of a) db.prospects (new_rows env admin emails db) in
        let grown' = count_where-append (waits a) db.prospects (new_rows env admin emails db) in
        let long = count_where-le-length (str_eq a) (queued_now env emails db) in
        elim (Bool-cases (ltb 0 (length (queued_now env emails db)))) [
          | inl fresh ↦
              (k, rw fresh (omega (arith, grown, new)), rw fresh (omega (arith, grown', new')), few)
          | inr old ↦
              (let zero : k ≡ 0 = ground (arith, long, old) in
                (k, rw old (omega (arith, zero)), rw old (omega (arith, zero)), few))
        ]

    pub uploaded-invited : invited a (uploaded env admin emails db) ≡ invited a db
    uploaded-invited =
        let logged =
          count_where-append (is_invitation a) db.effects
            (audit (some admin) "admin.prospect_campaign_uploaded" none ∷ []) in
        omega (arith, logged)
