-- ===== src/Campaign/Drip.antt =====
-- `runDailyDrip` of src/prospect-campaign/prospect-campaign.service.ts. `sendProspectInviteBulk`
-- asks for one mail for each address, and returns also when the queue of the mails is down.
pub mod Drained
pub mod Invitations
pub mod Laws
pub mod Rounds
pub mod Settled
use conference_contact.Prelude.{
  ℕ, ◌+◌, String, Bool, true, none, some, List, [], ◌∷◌, ◌++◌, ◌==◌, ltb, map, length, take,
  sort_by, find_first, filter_where, update_where, if◌then◌else◌,
}
use conference_contact.Prelude.Sets.{has, set_add_all}
use conference_contact.Schema.{Db, Effect, mail, audit}
use conference_contact.Schema.Leads.{
  Prospect, ProspectStatus, pending, sent, skipped_existing_user, skipped_unsubscribed,
}
use conference_contact.Action.{
  Action, record_not_found, pure, gets, or_raise, skip, modify, emit, ◌>>=◌, ◌>>◌,
}
use conference_contact.Campaign.{CampaignEnv, status_eq, get_or_create_settings}
use conference_contact.Campaign.Upload.{among_chunk, user_emails}

abbrev pub is_pending : Prospect → Bool
is_pending r = status_eq r.status pending

-- `findMany({ where: { status: 'PENDING' }, orderBy: { createdAt: 'asc' }, take: dailyCap })`
abbrev pub batch_of : ℕ → List Prospect → List Prospect
batch_of cap rows = take cap (sort_by (λ r. r.created_at) (filter_where is_pending rows))

-- What the loop over the candidates collects.
pub record Sorted : Type 0 where
  pub to_send : List String
  pub skipped_existing : ℕ
  pub skipped_unsubscribed : ℕ

abbrev pub with_status : ProspectStatus → Prospect → Prospect
with_status status r = record r { status = status }

-- `update` of a row of the queue by its id
unfoldable pub update_prospect : ℕ → ProspectStatus → Action (Unit {0})
update_prospect id status = do
  or_raise (← gets (λ db. find_first (λ r. r.id == id) db.prospects)) record_not_found
  modify (λ db. record db {
    prospects = update_where (λ r. r.id == id) (with_status status) db.prospects;
  })

module _ (existing suppressed : List String) where
  -- one round of the loop
  unfoldable pub sort_candidate : Prospect → Sorted → Action Sorted
  unfolding update_prospect
  sort_candidate c acc =
      if has existing c.email
      then (do
        update_prospect c.id skipped_existing_user
        pure (record acc { skipped_existing = acc.skipped_existing + 1 }))
      else if has suppressed c.email
      then (do
        update_prospect c.id skipped_unsubscribed
        pure (record acc { skipped_unsubscribed = acc.skipped_unsubscribed + 1 }))
      else pure (record acc { to_send = acc.to_send ++ c.email ∷ [] })

  unfoldable pub sort_candidates : List Prospect → Sorted → Action Sorted
  unfolding sort_candidate
  sort_candidates [] acc = pure acc
  sort_candidates (c ∷ cs) acc = do acc' ← sort_candidate c acc; sort_candidates cs acc'

pub record DripResult : Type 0 where
  pub sent : ℕ
  pub skipped_existing : ℕ
  pub skipped_unsubscribed : ℕ
  pub batch_size : ℕ

abbrev pub nothing_sent : DripResult
nothing_sent = record { sent = 0; skipped_existing = 0; skipped_unsubscribed = 0; batch_size = 0 }

abbrev pub invitation : String → Effect
invitation email = mail "prospect-cold-invite" email

abbrev pub sent_at : ℕ → Prospect → Prospect
sent_at now r = record r { status = sent; sent_at = some now }

module _ (env : CampaignEnv) where
  -- the mails, and then `updateMany` of the rows with their addresses
  unfoldable pub send_all : List String → Action (Unit {0})
  unfolding ◌>>=◌
  send_all to_send =
      if ltb 0 (length to_send)
      then (do
        modify (λ db. record db { effects = db.effects ++ map invitation to_send })
        modify (λ db. record db {
          prospects = update_where (λ r. has to_send r.email) (sent_at env.now) db.prospects;
        }))
      else skip

  -- the run on a batch that is not empty
  unfoldable pub send_batch : List Prospect → Action DripResult
  unfolding sort_candidates send_all
  send_batch candidates = do
    let emails = map (λ c. c.email) candidates
    existing ← gets (λ db. set_add_all (among_chunk (user_emails db) emails) [])
    suppressed ← gets (λ db. set_add_all (among_chunk db.suppressions emails) [])
    sorted ←
        sort_candidates existing suppressed candidates
          (record { to_send = []; skipped_existing = 0; skipped_unsubscribed = 0 })
    send_all sorted.to_send
    emit (audit none "admin.prospect_campaign_daily_drip" none)
    pure (record {
      sent = length sorted.to_send;
      skipped_existing = sorted.skipped_existing;
      skipped_unsubscribed = sorted.skipped_unsubscribed;
      batch_size = length candidates;
    })

  unfoldable pub run_daily_drip : Action DripResult
  unfolding get_or_create_settings send_batch
  run_daily_drip = do
    settings ← get_or_create_settings
    if settings.paused then pure nothing_sent else do
      candidates ← gets (λ db. batch_of settings.daily_cap db.prospects)
      if length candidates == 0 then pure nothing_sent else send_batch candidates
