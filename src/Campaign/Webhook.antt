-- ===== src/Campaign/Webhook.antt =====
-- What Resend tells about its mails: `verifyResendWebhookSignature` of src/email/resend-webhook.util.ts
-- and `handleResendWebhook` of src/prospect-campaign/resend-webhook.controller.ts.
pub mod Laws
use Prim.Native.Char.{Char, code}
use Prim.Native.String.{String, ◌++◌}
use text.Mathlib.Text.{◌==◌ as str_eq}
use conference_contact.Prelude.{
  ℕ, ◌-◌, Bool, true, false, not, ◌&&◌, Option, none, some, List, [], ◌∷◌, ◌==◌, leb, any,
  if◌then◌else◌,
}
use conference_contact.Action.{
  Action, bad_request, service_unavailable, or_raise, raise_if, skip, ◌>>=◌, ◌>>◌,
}
use conference_contact.Campaign.{mark_bounced, mark_complained}
use conference_contact.Campaign.Text.{trim}
use conference_contact.Email.Words.{truthy}

-- `type`, and the first of `data.to`
pub record ResendWebhookEvent : Type 0 where
  pub type : String
  pub recipient : Option String

-- The time, RESEND_WEBHOOK_SECRET, `Number` in milliseconds (where `none` is not finite or negative),
-- the HMAC in base64 under the key that the text of a secret stands for, `JSON.parse` (where `none` is
-- an exception) and `toLowerCase`.
pub record ResendEnv : Type 0 where
  pub now : ℕ
  pub webhook_secret : Option String
  pub number : String → Option ℕ
  pub hmac : String → String → String
  pub json_parse : String → Option ResendWebhookEvent
  pub to_lower_case : String → String

-- the body of a request, and its headers
pub record ResendRequest : Type 0 where
  pub raw_body : String
  pub svix_id : Option String
  pub svix_timestamp : Option String
  pub svix_signature : Option String

abbrev pub tolerance_ms : ℕ
tolerance_ms = 300000

abbrev pub given : Option String → Option String
given none = none
given (some s) = truthy s

abbrev pub put_first : Char → List String → List String
put_first c [] = String.◌∷◌ c "" ∷ []
put_first c (p ∷ ps) = String.◌∷◌ c p ∷ ps

-- `split` at one character
unfoldable pub split : ℕ → String → List String
split sep String.[] = "" ∷ []
split sep (String.◌∷◌ c s) =
    let rest = split sep s in if code c == sep then "" ∷ rest else put_first c rest

abbrev pub second : List String → Option String
second (p ∷ q ∷ ps) = truthy q
second ps = none

-- `const [, sig] = entry.split(',')`, compared with what is expected
abbrev pub entry_matches : String → String → Bool
entry_matches expected entry = elim (second (split b',' entry)) [
  | none ↦ false
  | some sig ↦ str_eq sig expected
]

-- `Math.abs(…) <= TOLERANCE_SECONDS`, in milliseconds
abbrev pub is_recent : ℕ → Option ℕ → Bool
is_recent now none = false
is_recent now (some timestamp) =
    leb (now - timestamp) tolerance_ms && leb (timestamp - now) tolerance_ms

abbrev pub signed_content : String → String → String → String
signed_content id timestamp body = id ++ "." ++ timestamp ++ "." ++ body

unfoldable pub verify_resend_webhook_signature : ResendEnv → ResendRequest → String → Bool
unfolding split
verify_resend_webhook_signature env req secret = elim (given req.svix_id) [
  | none ↦ false
  | some id ↦ elim (given req.svix_timestamp) [
    | none ↦ false
    | some timestamp ↦ elim (given req.svix_signature) [
      | none ↦ false
      | some signature ↦
          is_recent env.now (env.number timestamp)
          && any (entry_matches (env.hmac secret (signed_content id timestamp req.raw_body)))
              (split b' ' signature)
    ]
  ]
]

-- the branches on `recipient` and `event.type`
abbrev pub on_event : ResendEnv → ResendWebhookEvent → Action (Unit {0})
on_event env event = elim (given event.recipient) [
  | none ↦ skip
  | some recipient ↦
      (let email = env.to_lower_case (trim recipient) in
        if str_eq event.type "email.bounced"
        then mark_bounced email
        else if str_eq event.type "email.complained"
        then mark_complained email
        else skip)
]

unfoldable pub handle_resend_webhook : ResendEnv → ResendRequest → Action (Unit {0})
unfolding verify_resend_webhook_signature mark_bounced mark_complained
handle_resend_webhook env req = do
  secret ← or_raise (given env.webhook_secret) service_unavailable
  raise_if (not (verify_resend_webhook_signature env req secret)) bad_request
  event ← or_raise (env.json_parse req.raw_body) bad_request
  on_event env event
