-- ===== src/Campaign/Upload.antt =====
-- `enqueueUploadedEmails` of src/prospect-campaign/prospect-campaign.service.ts.
pub mod Counts
pub mod Laws
use conference_contact.Prelude.{
  ℕ, zero, suc, ◌+◌, String, Bool, not, ◌&&◌, none, some, List, [], ◌∷◌, ◌++◌, map, ltb, length,
  drop, take, drop, filter_where, if◌then◌else◌,
}
use conference_contact.Prelude.Sets.{has, set_add, set_add_all}
use conference_contact.Schema.{Db, audit}
use conference_contact.Schema.Leads.{Prospect, pending}
use conference_contact.Action.{Action, pure, gets, skip, modify, emit, ◌>>=◌, ◌>>◌}
use conference_contact.Campaign.{CampaignEnv}

-- The addresses of a file: the valid ones as a set, and how many are not valid.
abbrev pub valid_of : (String → Bool) → List String → List String × ℕ → List String × ℕ
valid_of is_email [] (valid, invalid) = (valid, invalid)
valid_of is_email (e ∷ es) (valid, invalid) =
    valid_of is_email es (if is_email e then (set_add e valid, invalid) else (valid, invalid + 1))

-- `findMany({ where: { email: { in: chunk } } })` on a column of addresses
abbrev pub among_chunk : List String → List String → List String
among_chunk column chunk = filter_where (has chunk) column

-- The loop over the chunks of `CHUNK_SIZE` candidates, which adds what one column has of each chunk.
abbrev pub found_in_chunks : ℕ → List String → List String → List String → List String
found_in_chunks zero column candidates found = found
found_in_chunks (suc fuel) column [] found = found
found_in_chunks (suc fuel) column (c ∷ cs) found =
    found_in_chunks fuel column (drop 1000 (c ∷ cs))
      (set_add_all (among_chunk column (take 1000 (c ∷ cs))) found)

-- one round for each candidate is enough, since each chunk has one at least
abbrev pub found_in : List String → List String → List String
found_in column candidates = found_in_chunks (length candidates) column candidates []

-- the columns `email` of the three tables
abbrev pub user_emails : Db → List String
user_emails db = map (λ u. u.email) db.users

abbrev pub queued_emails : Db → List String
queued_emails db = map (λ r. r.email) db.prospects

-- `candidates.filter(…)`
abbrev pub to_queue : List String → Db → List String
to_queue candidates db =
    let existing = found_in (user_emails db) candidates in
    let suppressed = found_in db.suppressions candidates in
    let queued = found_in (queued_emails db) candidates in
    filter_where (λ e. not (has existing e) && (not (has suppressed e) && not (has queued e)))
      candidates

-- The rows of `createMany`, with consecutive ids from a fresh one.
abbrev pub new_prospects : ℕ → ℕ → ℕ → List String → List Prospect
new_prospects now fresh admin [] = []
new_prospects now fresh admin (e ∷ es) =
    record {
      id = fresh;
      email = e;
      status = pending;
      uploaded_by_user_id = some admin;
      created_at = now;
      sent_at = none;
    }
    ∷ new_prospects now (fresh + 1) admin es

pub record UploadResult : Type 0 where
  pub queued : ℕ
  pub already_queued : ℕ
  pub already_has_account : ℕ
  pub unsubscribed : ℕ
  pub invalid : ℕ
  pub total : ℕ

module _ (env : CampaignEnv) where
  abbrev pub upload_result : List String → Db → UploadResult
  upload_result emails db =
      let (candidates, invalid) = valid_of env.is_email emails ([], 0) in
      record {
        queued = length (to_queue candidates db);
        already_queued = length (found_in (queued_emails db) candidates);
        already_has_account = length (found_in (user_emails db) candidates);
        unsubscribed = length (found_in db.suppressions candidates);
        invalid = invalid;
        total = length emails;
      }

  abbrev pub create_many : ℕ → List String → Action (Unit {0})
  create_many admin emails =
      modify
        λ db. record db { prospects = db.prospects ++ new_prospects env.now env.fresh admin emails }

  unfoldable pub enqueue_uploaded_emails : ℕ → List String → Action UploadResult
  unfolding ◌>>=◌
  enqueue_uploaded_emails admin emails = do
    fresh_emails ← gets (to_queue (valid_of env.is_email emails ([], 0)).0)
    result ← gets (upload_result emails)
    if ltb 0 (length fresh_emails) then create_many admin fresh_emails else skip
    emit (audit (some admin) "admin.prospect_campaign_uploaded" none)
    pure result
