-- ===== src/Webhooks/GraceClock/Stamps.antt =====
-- The invariant of the grace periods, and what the writes to balances do to it.
use conference_contact.Prelude.{ℕ, ◌≡◌, ◌≢◌, Option, none, All, ◌==◌, ◌+◌, List, update_where}
use conference_contact.Schema.{Db}
use conference_contact.Schema.Accounts.{User}
use conference_contact.Schema.Billing.{CreditGrant, SubscriptionStatus, past_due, canceled}
use conference_contact.Action.{Action, ◌>>◌, emit, modify}
use conference_contact.Action.Keeps.{
  Keeps, Keeps-modify, Keeps-bind, Keeps-gets, Keeps-or_raise, IsStable, keeps_rules,
}
use conference_contact.Credits.{increment_credits, add_credit_grant}

abbrev pub Stamped : SubscriptionStatus → Option ℕ → Type 0
Stamped status since = status ≡ past_due → since ≢ none

-- The invariant: a row that is past due says since when.
pub record IsStamped (db : Db) : Type 0 where
  pub directory : All (λ s. Stamped s.status s.past_due_since) db.subscriptions
  pub tiers : All (λ s. Stamped s.status s.past_due_since) db.lead_finder_subscriptions

abbrev pub KeepsStamps : Db → Db → Type 0
KeepsStamps a b = IsStamped a → IsStamped b

pub KeepsStamps-IsStable : IsStable KeepsStamps
unfolding emit
KeepsStamps-IsStable = record {
  same = λ db h. h;
  compose = λ a b c f g h. g (f h);
  effect = λ db e h. record { directory = h.directory; tiers = h.tiers };
}

pub canceled_stamp : (since : Option ℕ) → Stamped canceled since
canceled_stamp since p = cc

users_stamped :
    (f : List User → List User) → Keeps KeepsStamps (modify λ db. record db { users = f db.users })
users_stamped f = Keeps-modify _ λ db h. record { directory = h.directory; tiers = h.tiers }

increment_stamped : (user_id credits : ℕ) → Keeps KeepsStamps (increment_credits user_id credits)
unfolding increment_credits
increment_stamped user_id credits =
    let stable = KeepsStamps-IsStable in
    Keeps-bind stable _ _ (Keeps-gets stable _) λ o.
      Keeps-bind stable _ _ (Keeps-or_raise stable o _) λ u. users_stamped (
        update_where (λ u. u.id == user_id)
          (λ u. record u { lead_finder_credits = u.lead_finder_credits + credits }))

grant_stamped : (g : CreditGrant) → Keeps KeepsStamps (add_credit_grant g)
unfolding add_credit_grant
grant_stamped g = Keeps-modify _ λ db h. record { directory = h.directory; tiers = h.tiers }

pub granted_stamped :
    (g : CreditGrant) (rest : Action (Unit {0}))
    → Keeps KeepsStamps rest
    → Keeps KeepsStamps (increment_credits g.user_id g.credits >> (add_credit_grant g >> rest))
granted_stamped g rest k =
    search (keeps_rules, KeepsStamps-IsStable, increment_stamped, grant_stamped)
