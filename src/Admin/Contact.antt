-- ===== src/Admin/Contact.antt =====
-- The messages of the contact form, of src/contact/contact.service.ts and
-- src/admin/admin.service.ts, and the invitations of src/invites/invites.service.ts.
use conference_contact.Prelude.{
  ℕ, String, true, false, not, ◌&&◌, Option, none, some, List, [], ◌∷◌, ◌++◌, ◌==◌, find_first,
  filter_where, update_where, is_some,
}
use text.Mathlib.Text.{◌==◌ as str_eq}
use conference_contact.Schema.{Db, mail, audit}
use conference_contact.Schema.Admin.{ContactMessage, Invite, pending}
use conference_contact.Action.{
  Action, not_found, bad_request, raise_if, gets, or_raise, modify, emit, ◌>>=◌, ◌>>◌,
}
use conference_contact.Guards.{find_user}
use conference_contact.Users.{find_by_email}

-- `ContactDto`
pub record ContactDto : Type 0 where
  pub name : String
  pub email : String
  pub reason : ℕ
  pub message : String

module _ (now fresh : ℕ) (support_email : String) where
  unfoldable pub submit : ContactDto → Action (Unit {0})
  submit dto = do
    modify (λ db. record db {
      contact_messages =
          db.contact_messages
          ++ record {
            id = fresh;
            name = dto.name;
            email = dto.email;
            reason = dto.reason;
            message = dto.message;
            resolved = false;
            created_at = now;
          }
            ∷ [];
    })
    emit (mail "contact-form" support_email)

  abbrev new_invite : ℕ → String → Option Invite → List Invite → List Invite
  new_invite inviter_id email (some i) rows = rows
  new_invite inviter_id email none rows =
      rows
      ++ record {
        id = fresh;
        inviter_id = inviter_id;
        email = email;
        status = pending;
        created_at = now;
        accepted_at = none;
      }
        ∷ []

  unfoldable pub create_invite : ℕ → String → Action (Unit {0})
  create_invite inviter_id email = do
    found ← gets (find_user inviter_id)
    inviter ← or_raise found not_found
    raise_if (str_eq email inviter.email) bad_request
    existing ← gets (find_by_email email)
    raise_if (is_some existing) bad_request
    sent ←
        gets (λ db. find_first (λ i. i.inviter_id == inviter_id && str_eq i.email email) db.invites)
    modify (λ db. record db { invites = new_invite inviter_id email sent db.invites })
    emit (mail "invite" email)

abbrev pub find_message : ℕ → Db → Option ContactMessage
find_message id db = find_first (λ m. m.id == id) db.contact_messages

abbrev pub resolved_message : ContactMessage → ContactMessage
resolved_message m = record m { resolved = true }

unfoldable pub resolve_contact_message : ℕ → ℕ → Action (Unit {0})
resolve_contact_message admin id = do
  existing ← gets (find_message id)
  found ← or_raise existing not_found
  raise_if found.resolved bad_request
  modify (λ db. record db {
    contact_messages = update_where (λ m. m.id == id) resolved_message db.contact_messages;
  })
  emit (audit (some admin) "admin.contact_message_resolved" (some id))

unfoldable pub delete_contact_message : ℕ → ℕ → Action (Unit {0})
delete_contact_message admin id = do
  existing ← gets (find_message id)
  found ← or_raise existing not_found
  modify (λ db. record db {
    contact_messages = filter_where (λ m. not (m.id == id)) db.contact_messages;
  })
  emit (audit (some admin) "admin.contact_message_deleted" (some id))

unfoldable pub reply_to_contact_message : ℕ → ℕ → Action (Unit {0})
reply_to_contact_message admin id = do
  existing ← gets (find_message id)
  found ← or_raise existing not_found
  emit (mail "contact-reply" found.email)
  emit (audit (some admin) "admin.contact_message_replied" (some id))
