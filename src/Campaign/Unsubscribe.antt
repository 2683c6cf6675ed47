-- ===== src/Campaign/Unsubscribe.antt =====
-- The links to unsubscribe, of src/email/unsubscribe-token.util.ts and
-- src/email/unsubscribe.controller.ts. Two buffers are equal when the texts they hold are.
use conference_contact.Prelude.{◌≡◌, refl, String, Bool, true, not, arith}
use text.Mathlib.Text.{◌==◌ as str_eq}
use text.Mathlib.TextPositions.{eq_refl}
use conference_contact.Prelude.Sets.{has, set_add}
use conference_contact.Prelude.Sets.Laws.{has-set_add}
use conference_contact.Schema.{Db}
use conference_contact.Action.{Action, ok, bad_request, raise_if, ◌>>=◌, ◌>>◌}
use conference_contact.Campaign.{suppress}

-- `createHmac('sha256', secret).update(…).digest('base64url')`, and UNSUBSCRIBE_SECRET
pub record UnsubscribeEnv : Type 0 where
  pub hmac : String → String → String
  pub secret : String

abbrev pub sign_unsubscribe_token : UnsubscribeEnv → String → String
sign_unsubscribe_token env email = env.hmac env.secret email

unfoldable pub verify_unsubscribe_token : UnsubscribeEnv → String → String → Bool
verify_unsubscribe_token env email token = str_eq (sign_unsubscribe_token env email) token

unfoldable pub unsubscribe : UnsubscribeEnv → String → String → Action (Unit {0})
unfolding suppress
unsubscribe env email token = do
  raise_if (not (verify_unsubscribe_token env email token)) bad_request
  suppress email

-- A link in a mail to an address suppresses that address, and clicked again changes nothing.
pub unsubscribe_lem :
    (env : UnsubscribeEnv) (email : String) (db : Db)
    → let signed = unsubscribe env email (sign_unsubscribe_token env email) in
      ((signed db).0 ≡ ok tt)
      × (has (signed db).1.suppressions email ≡ true)
      × (signed (signed db).1 ≡ signed db)
unfolding unsubscribe suppress verify_unsubscribe_token ◌>>=◌
unsubscribe_lem env email db =
    let valid = eq_refl (env.hmac env.secret email) in
    let added = has-set_add email email db.suppressions in
    let kept : has (set_add email db.suppressions) email ≡ true =
      ground (arith, added, eq_refl email) in
    rw (valid, kept) (refl, refl, refl)
