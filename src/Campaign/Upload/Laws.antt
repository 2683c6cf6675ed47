-- ===== src/Campaign/Upload/Laws.antt =====
-- What an upload puts into the queue.
use conference_contact.Prelude.{
  ℕ, zero, suc, ap, ◌+◌, ◌≤◌, ◌≡◌, refl, String, Bool, false, not, ◌&&◌, ◌||◌, none, some, List, [],
  ◌∷◌, ◌++◌, ltb, map, length, take, drop, arith, Bool-cases, inl, inr, if◌then◌else◌,
}
use text.Mathlib.TextPositions.{eq_refl}
use conference_contact.Prelude.Sets.{has, set_add_all}
use conference_contact.Prelude.Sets.Laws.{has-set_add_all, has-filter_where}
use conference_contact.Schema.{Db, audit}
use conference_contact.Schema.Leads.{Prospect}
use conference_contact.Action.{ok, ◌>>=◌}
use conference_contact.Campaign.{CampaignEnv}
use conference_contact.Campaign.Upload.{
  valid_of, among_chunk, found_in_chunks, found_in, user_emails, queued_emails, to_queue,
  new_prospects, UploadResult, upload_result, enqueue_uploaded_emails,
}

has-take-drop :
    (n : ℕ) (xs : List String) (a : String) → has xs a ≡ (has (take n xs) a || has (drop n xs) a)
has-take-drop zero xs a = refl
has-take-drop (suc n) [] a = refl
has-take-drop (suc n) (x ∷ xs) a = ground (arith, has-take-drop n xs a)

length-drop-le : (n : ℕ) (xs : List String) → length (drop n xs) ≤ length xs
length-drop-le zero xs = omega arith
length-drop-le (suc n) [] = omega arith
length-drop-le (suc n) (x ∷ xs) = omega (arith, length-drop-le n xs)

-- What one chunk and those behind it find is what all of them find.
one_chunk_more :
    (found column chunk rest : Bool) {whole set part all : Bool}
    → whole ≡ (set || column && rest)
    → set ≡ (found || part)
    → part ≡ (column && chunk)
    → all ≡ (chunk || rest)
    → whole ≡ (found || column && all)
one_chunk_more found column chunk rest h k l m = ground arith

-- Enough rounds find what the column has of the candidates.
has-found_in_chunks :
    (fuel : ℕ) (column candidates found : List String) (a : String)
    → length candidates ≤ fuel
    → has (found_in_chunks fuel column candidates found) a
      ≡ (has found a || has column a && has candidates a)
has-found_in_chunks zero column [] found a enough = ground arith
has-found_in_chunks zero column (c ∷ cs) found a enough = absurd (omega (arith, enough))
has-found_in_chunks (suc fuel) column [] found a enough = ground arith
has-found_in_chunks (suc fuel) column (c ∷ cs) found a enough =
    let chunk = take 1000 (c ∷ cs) in
    let shorter : length (drop 1000 (c ∷ cs)) ≤ fuel =
      omega (arith, length-drop-le 999 cs, enough) in
    let ih =
      has-found_in_chunks fuel column (drop 1000 (c ∷ cs))
        (set_add_all (among_chunk column chunk) found) a shorter in
    let added = has-set_add_all (among_chunk column chunk) a found in
    let queried = has-filter_where (has chunk) column a in
    let parts = has-take-drop 1000 (c ∷ cs) a in
    one_chunk_more (has found a) (has column a) (has chunk a) (has (drop 1000 (c ∷ cs)) a) ih added
      queried parts

-- The look-ups by chunks of a thousand find an address exactly when it is a candidate that the
-- column has, as one query for all the candidates does.
pub has-found_in :
    (column candidates : List String) (a : String)
    → has (found_in column candidates) a ≡ (has column a && has candidates a)
has-found_in column candidates a =
    has-found_in_chunks (length candidates) column candidates [] a (omega arith)

-- An address is queued exactly when it is a candidate that no table has.
pub has-to_queue :
    (candidates : List String) (db : Db) (a : String)
    → has (to_queue candidates db) a ≡ (
        has candidates a
        && (not (has (user_emails db) a)
            && (not (has db.suppressions a) && not (has (queued_emails db) a))))
has-to_queue candidates db a =
    let users = has-found_in (user_emails db) candidates a in
    let gone = has-found_in db.suppressions candidates a in
    let queued = has-found_in (queued_emails db) candidates a in
    let kept =
      has-filter_where
        (λ e.
          not (has (found_in (user_emails db) candidates) e)
          && (not (has (found_in db.suppressions candidates) e)
              && not (has (found_in (queued_emails db) candidates) e)))
        candidates a in
    ground (arith, kept, users, gone, queued)

has_nothing : (set : List String) → ((a : String) → has set a ≡ false) → set ≡ []
has_nothing [] missing = refl
has_nothing (x ∷ xs) missing = ground (arith, missing x, eq_refl x)

has-emails-append :
    (rows new : List Prospect) (a : String)
    → has (map (λ r. r.email) (rows ++ new)) a
      ≡ (has (map (λ r. r.email) rows) a || has (map (λ r. r.email) new) a)
has-emails-append [] new a = refl
has-emails-append (r ∷ rows) new a = ground (arith, has-emails-append rows new a)

has-new_prospects :
    (now fresh admin : ℕ) (es : List String) (a : String)
    → has (map (λ r. r.email) (new_prospects now fresh admin es)) a ≡ has es a
has-new_prospects now fresh admin [] a = refl
has-new_prospects now fresh admin (e ∷ es) a =
    ground (arith, has-new_prospects now (fresh + 1) admin es a)

-- What was queued, and what was not to be queued, is not queued again.
none_left :
    (candidate user gone queued : Bool) {first second grown : Bool}
    → first ≡ (candidate && (not user && (not gone && not queued)))
    → second ≡ (candidate && (not user && (not gone && not grown)))
    → grown ≡ (queued || first)
    → second ≡ false
none_left candidate user gone queued h k l = ground arith

-- The addresses that an upload queues.
abbrev pub queued_now : CampaignEnv → List String → Db → List String
queued_now env emails db = to_queue (valid_of env.is_email emails ([], 0)).0 db

module _ (env : CampaignEnv) (admin : ℕ) (emails : List String) (db : Db) where
  -- The rows that it makes of them.
  abbrev pub new_rows : List Prospect
  new_rows = new_prospects env.now env.fresh admin (queued_now env emails db)

  abbrev pub uploaded : Db
  uploaded = record db {
    prospects =
        if ltb 0 (length (queued_now env emails db))
        then db.prospects ++ new_rows
        else db.prospects;
    effects = db.effects ++ audit (some admin) "admin.prospect_campaign_uploaded" none ∷ [];
  }

  pub enqueue_uploaded_emails_lem :
      enqueue_uploaded_emails env admin emails db ≡ (ok (upload_result env emails db), uploaded)
  unfolding enqueue_uploaded_emails ◌>>=◌
  enqueue_uploaded_emails_lem = elim (Bool-cases (ltb 0 (length (queued_now env emails db)))) [
    | inl fresh ↦ rw fresh refl
    | inr old ↦ rw old refl
  ]

  has-uploaded :
      (a : String)
      → has (queued_emails uploaded) a
        ≡ (has (queued_emails db) a || has (queued_now env emails db) a)
  has-uploaded a =
      let grown = has-emails-append db.prospects new_rows a in
      let new = has-new_prospects env.now env.fresh admin (queued_now env emails db) a in
      elim (Bool-cases (ltb 0 (length (queued_now env emails db)))) [
        | inl fresh ↦ rw fresh (ground (arith, grown, new))
        | inr old ↦ rw old (go (queued_now env emails db) old)
      ]
    where
      go :
          (set : List String)
          → ltb 0 (length set) ≡ false
          → has (queued_emails db) a ≡ (has (queued_emails db) a || has set a)
      go [] empty = ground arith
      go (x ∷ xs) empty = ground arith

module _ (env : CampaignEnv) (admin : ℕ) (emails : List String) (db : Db) where
  queued_again : (a : String) → has (queued_now env emails (uploaded env admin emails db)) a ≡ false
  queued_again a =
      let candidates = (valid_of env.is_email emails ([], 0)).0 in
      let first = has-to_queue candidates db a in
      let second = has-to_queue candidates (uploaded env admin emails db) a in
      let grown = has-uploaded env admin emails db a in
      none_left (has candidates a) (has (user_emails db) a) (has db.suppressions a)
        (has (queued_emails db) a) first second grown

  -- The same file uploaded again, later and by any administrator, queues nothing and leaves the
  -- queue as it is.
  pub upload_again :
      (now fresh again : ℕ)
      → let first = (enqueue_uploaded_emails env admin emails db).1 in
        let run =
          enqueue_uploaded_emails (record env { now = now; fresh = fresh }) again emails first in
        (r : UploadResult) × (run.0 ≡ ok r) × (r.queued ≡ 0) × (run.1.prospects ≡ first.prospects)
  upload_again now fresh again =
      let first = uploaded env admin emails db in
      let later = record env { now = now; fresh = fresh } in
      let run = enqueue_uploaded_emails_lem later again emails first in
      let nothing = has_nothing (queued_now env emails first) queued_again in
      rw (enqueue_uploaded_emails_lem env admin emails db)
        (upload_result later emails first, rw run refl, ap length nothing, rw (run, nothing) refl)
