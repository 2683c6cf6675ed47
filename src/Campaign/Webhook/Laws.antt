-- ===== src/Campaign/Webhook/Laws.antt =====
-- Deliveries of Resend, signed and repeated.
use Prim.Native.Char.{code}
use Prim.Native.String.{String}
use text.Mathlib.Text.{◌==◌ as str_eq}
use text.Mathlib.TextPositions.{eq_refl}
use conference_contact.Prelude.{
  ℕ, ◌≤◌, ◌+◌, ◌≡◌, refl, Bool, true, false, not, ◌&&◌, ◌⊎◌, inl, inr, some, List, [], ◌∷◌, ◌==◌,
  Bool-cases, true_ne_false, ◌∙◌, update_where, arith,
}
use conference_contact.Prelude.Sets.{has, set_add}
use conference_contact.Prelude.Sets.Laws.{has-set_add}
use conference_contact.Schema.{Db}
use conference_contact.Schema.Leads.{Prospect, sent, bounced}
use conference_contact.Action.{ok, err, bad_request, ◌>>=◌}
use conference_contact.Campaign.{
  CampaignEnv, status_eq, mark_bounced, suppress, suppress_and_update_status, marked,
}
use conference_contact.Campaign.Text.{trim}
use conference_contact.Campaign.Drip.Invitations.{invited}
use conference_contact.Campaign.Runs.{CampaignStep, steps, opted_out_for_good}
use conference_contact.Campaign.Webhook.{
  ResendEnv, ResendRequest, given, split, entry_matches, signed_content, is_recent,
  verify_resend_webhook_signature, on_event, handle_resend_webhook,
}
use conference_contact.Email.Words.{truthy}

-- Whether a text is without a character.
abbrev pub lacks : ℕ → String → Bool
lacks sep String.[] = true
lacks sep (String.◌∷◌ c s) = not (code c == sep) && lacks sep s

split-lacks : (sep : ℕ) (s : String) → lacks sep s ≡ true → split sep s ≡ s ∷ []
unfolding split
split-lacks sep String.[] h = refl
split-lacks sep (String.◌∷◌ c s) h =
    let rest = split-lacks sep s (ground (arith, h)) in
    let other : (code c == sep) ≡ false = ground (arith, h) in rw (rest, other) refl

-- What a genuine delivery has in its headers, as of the signature `v1,<sig>`.
abbrev pub signed : ResendEnv → String → String → String → String → ResendRequest
signed env secret id timestamp body = record {
  raw_body = body;
  svix_id = some id;
  svix_timestamp = some timestamp;
  svix_signature = some (
      String.◌∷◌ "v"
        (String.◌∷◌ "1" (String.◌∷◌ "," (env.hmac secret (signed_content id timestamp body)))));
}

entry-lacks :
    (mac : String)
    → truthy mac ≡ some mac
    → lacks b',' mac ≡ true
    → entry_matches mac (String.◌∷◌ "v" (String.◌∷◌ "1" (String.◌∷◌ "," mac))) ≡ true
unfolding split
entry-lacks mac filled plain =
    let whole = split-lacks b',' mac plain in rw (whole, filled, eq_refl mac) refl

signed-is_genuine :
    (env : ResendEnv) (secret id timestamp body : String)
    → let mac = env.hmac secret (signed_content id timestamp body) in
      truthy id ≡ some id
      → truthy timestamp ≡ some timestamp
      → truthy mac ≡ some mac
      → lacks b' ' mac ≡ true
      → lacks b',' mac ≡ true
      → verify_resend_webhook_signature env (signed env secret id timestamp body) secret
        ≡ is_recent env.now (env.number timestamp)
unfolding verify_resend_webhook_signature
signed-is_genuine env secret id timestamp body has_id has_time filled no_space no_comma =
    let mac = env.hmac secret (signed_content id timestamp body) in
    let one = split-lacks b' ' (String.◌∷◌ "v" (String.◌∷◌ "1" (String.◌∷◌ "," mac))) no_space in
    let same = entry-lacks mac filled no_comma in
    rw (has_id, has_time, one, same, verify_resend_webhook_signature) (ground arith)

update_where_again :
    (p : Prospect → Bool) (f : Prospect → Prospect) (rows : List Prospect)
    → ((r : Prospect) → p (f r) ≡ false)
    → update_where p f (update_where p f rows) ≡ update_where p f rows
update_where_again p f [] moved = refl
update_where_again p f (r ∷ rows) moved =
    let rest = update_where_again p f rows moved in
    elim (Bool-cases (p r)) [
      | inl here ↦ rw (here, moved r, rest) refl
      | inr not_here ↦ rw (not_here, not_here, rest) refl
    ]

marked_ok : (a : String) (db : Db) → (mark_bounced a db).0 ≡ ok tt
unfolding mark_bounced suppress_and_update_status suppress ◌>>=◌
marked_ok a db = refl

-- A second bounce of an address changes nothing.
bounced_again : (a : String) (db : Db) → mark_bounced a (mark_bounced a db).1 ≡ mark_bounced a db
unfolding mark_bounced suppress_and_update_status suppress ◌>>=◌
bounced_again a db =
    let q = λ (r : Prospect). str_eq r.email a && status_eq r.status sent in
    let kept : has (set_add a db.suppressions) a ≡ true =
      ground (arith, has-set_add a a db.suppressions, eq_refl a) in
    let same = update_where_again q (marked bounced) db.prospects (λ r. ground arith) in
    rw (kept, same) refl

on_bounce :
    (env : ResendEnv) (recipient : String) (db : Db)
    → truthy recipient ≡ some recipient
    → on_event env (record { type = "email.bounced"; recipient = some recipient }) db
      ≡ mark_bounced (env.to_lower_case (trim recipient)) db
on_bounce env recipient db filled = rw (filled, on_event) refl

-- A delivery is refused, or its event is handled.
delivery-cases :
    (env : ResendEnv) (secret recipient : String) (req : ResendRequest) (db : Db)
    → given env.webhook_secret ≡ some secret
    → truthy recipient ≡ some recipient
    → env.json_parse req.raw_body
      ≡ some (record { type = "email.bounced"; recipient = some recipient })
    → let a = env.to_lower_case (trim recipient) in
      ((verify_resend_webhook_signature env req secret ≡ true)
        × (handle_resend_webhook env req db ≡ mark_bounced a db))
      ⊎ ((verify_resend_webhook_signature env req secret ≡ false)
          × (handle_resend_webhook env req db ≡ (err bad_request, db)))
unfolding handle_resend_webhook ◌>>=◌
delivery-cases env secret recipient req db configured filled parsed =
    elim (Bool-cases (verify_resend_webhook_signature env req secret)) [
      | inl valid ↦ inl (valid, rw (configured, valid, parsed) (on_bounce env recipient db filled))
      | inr forged ↦ inr (forged, rw (configured, forged) refl)
    ]

-- A bounce that Resend reports within five minutes of its time stamp, with the signature of the
-- configured secret, is accepted; the same request again, at any time, changes nothing; and no later
-- step of the campaign sends an invitation to the address. The signature is not empty and has neither
-- spaces nor commas, as base64.
pub bounce_reported :
    (env : ResendEnv) (secret id timestamp body recipient : String) (at later : ℕ)
    (run : List (CampaignEnv × CampaignStep)) (db : Db)
    → let mac = env.hmac secret (signed_content id timestamp body) in
      let a = env.to_lower_case (trim recipient) in
      let req = signed env secret id timestamp body in
      let (r, db') = handle_resend_webhook env req db in
      given env.webhook_secret ≡ some secret
      → truthy id ≡ some id
      → truthy timestamp ≡ some timestamp
      → truthy mac ≡ some mac
      → lacks b' ' mac ≡ true
      → lacks b',' mac ≡ true
      → env.number timestamp ≡ some at
      → env.now ≤ at + 300000
      → at ≤ env.now + 300000
      → truthy recipient ≡ some recipient
      → env.json_parse body ≡ some (record { type = "email.bounced"; recipient = some recipient })
      → (r ≡ ok tt)
        × ((handle_resend_webhook (record env { now = later }) req db').1 ≡ db')
        × (invited a (steps run db') ≡ invited a db)
bounce_reported env secret id timestamp body recipient at later run db configured has_id has_time
      filled no_space no_comma stamped not_late not_early addressed parsed =
    let req = signed env secret id timestamp body in
    let a = env.to_lower_case (trim recipient) in
    let timely : is_recent env.now (env.number timestamp) ≡ true = rw stamped (ground arith) in
    let genuine =
      signed-is_genuine env secret id timestamp body has_id has_time filled no_space no_comma
      ∙ timely in
    elim (delivery-cases env secret recipient req db configured addressed parsed) [
      | inr (forged, refused) ↦ absurd (true_ne_false forged genuine)
      | inl (valid, handled) ↦ rw handled (
        marked_ok a db,
        elim (delivery-cases (record env { now = later }) secret recipient req (mark_bounced a db).1
            configured addressed parsed) [
              | inl (still, again) ↦ rw (again, bounced_again a db) refl
              | inr (late, refused) ↦ rw refused refl
            ],
        (opted_out_for_good a run db).0,
      )
    ]
