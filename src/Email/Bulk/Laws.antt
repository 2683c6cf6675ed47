-- ===== src/Email/Bulk/Laws.antt =====
-- What the texts of administrators can do to a cold invitation.
use Prim.Native.Char.{code}
use Prim.Native.String.{String}
use conference_contact.Prelude.{Option, ◌≡◌, Bool-cases, inl, inr, refl}
use conference_contact.Schema.Leads.{CampaignSettings}
use conference_contact.Campaign.Text.Laws.{Free, trim-Free}
use conference_contact.Email.Escape.{is_control, blank_controls, sanitize_for_subject}
use conference_contact.Email.Markup.{markup, markup-append, markup-escape_html}
use conference_contact.Email.Words.Laws.{markup-encode_uri_component}
use conference_contact.Email.Bulk.{BulkEnv, cold_invite}

blank_controls-Free : (s : String) → Free is_control (blank_controls s)
unfolding blank_controls
blank_controls-Free String.[] = tt
blank_controls-Free (String.◌∷◌ c s) = elim (Bool-cases (is_control (code c))) [
  | inl control ↦ rw control (refl, blank_controls-Free s)
  | inr other ↦ rw other (other, blank_controls-Free s)
]

-- A text for a subject line has no control character, so it starts no header of its own.
pub sanitize_for_subject-Free : (s : String) → Free is_control (sanitize_for_subject s)
unfolding sanitize_for_subject
sanitize_for_subject-Free s = trim-Free is_control (blank_controls s) (blank_controls-Free s)

-- Whatever texts administrators have set, and whatever the addresses are: two invitations have the
-- same tags, and no subject has a control character.
pub cold_invite_contained :
    (env : BulkEnv) (settings settings' : Option CampaignSettings) (to to' : String)
    → (markup (cold_invite env settings to).mail.html
        ≡ markup (cold_invite env settings' to').mail.html)
      × Free is_control (cold_invite env settings to).mail.subject
unfolding cold_invite
cold_invite_contained env settings settings' to to' = (
  simp (markup-append, markup-escape_html, markup-encode_uri_component),
  sanitize_for_subject-Free _,
)
