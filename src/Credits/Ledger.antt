-- ===== src/Credits/Ledger.antt =====
-- How balances and the ledger of grants move together.
use conference_contact.Prelude.{
  ℕ, ◌+◌, ◌≡◌, List, [], ◌∷◌, ◌++◌, ◌==◌, if◌then◌else◌, refl, arith, Option, none, some,
  find_first, update_where, Option-cases, Bool-cases, ==_iff, inl, inr,
}
use conference_contact.Prelude.Rows.Updates.{find_first_matches, find_first-update_where}
use conference_contact.Schema.{Db}
use conference_contact.Schema.Accounts.{User}
use conference_contact.Schema.Billing.{CreditGrant}
use conference_contact.Action.{Action, emit, ◌>>=◌, ◌>>◌}
use conference_contact.Action.Keeps.{Keeps, IsStable}
use conference_contact.Credits.{increment_credits, add_credit_grant}

abbrev pub credits_of : Option User → ℕ
credits_of none = 0
credits_of (some u) = u.lead_finder_credits

-- The balance of a user.
abbrev pub balance : ℕ → Db → ℕ
balance id db = credits_of (find_first (λ u. u.id == id) db.users)

-- What the ledger of grants holds for a user.
abbrev pub granted : ℕ → List CreditGrant → ℕ
granted id [] = 0
granted id (g ∷ gs) = (if g.user_id == id then g.credits else 0) + granted id gs

-- Each user's balance has changed by what the ledger has gained for that user.
abbrev pub Ledger : Db → Db → Type 0
Ledger a b =
    (id : ℕ) → balance id b + granted id a.credit_grants ≡ balance id a + granted id b.credit_grants

pub Ledger-IsStable : IsStable Ledger
unfolding emit
Ledger-IsStable = record {
  same = λ db id. refl;
  compose = λ a b c h k id. omega (arith, h id, k id);
  effect = λ db e id. refl;
}

granted-append :
    (id : ℕ) (gs : List CreditGrant) (g : CreditGrant)
    → granted id (gs ++ g ∷ []) ≡ granted id gs + (if g.user_id == id then g.credits else 0)
granted-append id [] g = omega arith
granted-append id (h ∷ gs) g = omega (arith, granted-append id gs g)

none_ne_some : {o : Option User} {u : User} → o ≡ some u → o ≡ none → ⊥
none_ne_some h k = cc

credits-update_where :
    (user_id credits id : ℕ) (users : List User) {u : User}
    → find_first (λ r. r.id == user_id) users ≡ some u
    → credits_of (
        find_first
          (λ r. r.id == id)
          (update_where
            (λ r. r.id == user_id)
            (λ r. record r { lead_finder_credits = r.lead_finder_credits + credits })
            users))
      ≡ credits_of (find_first (λ r. r.id == id) users) + (if user_id == id then credits else 0)
credits-update_where user_id credits id users {u} h =
    rw
      (find_first-update_where (λ r. r.id == id) (λ r. r.id == user_id)
        (λ r. record r { lead_finder_credits = r.lead_finder_credits + credits }) (λ r. refl) users)
      (elim (Option-cases (find_first (λ r. r.id == id) users)) [
        | inl missing ↦ elim (Bool-cases (user_id == id)) [
          | inl same ↦
              (let e = (==_iff user_id id).0 same in absurd (none_ne_some (rw e at h) missing))
          | inr other ↦ rw (missing, other) refl
        ]
        | inr (r, found) ↦
            rw found (ground (arith, find_first_matches (λ (r : User). r.id == id) users found))
      ])

-- An increment and its row of the ledger belong together; what follows may be any such action.
pub Keeps-granted :
    (g : CreditGrant) (rest : Action (Unit {0}))
    → Keeps Ledger rest
    → Keeps Ledger (increment_credits g.user_id g.credits >> (add_credit_grant g >> rest))
unfolding increment_credits add_credit_grant ◌>>=◌
Keeps-granted g rest kr = record {
  at = λ db. elim (Option-cases (find_first (λ u. u.id == g.user_id) db.users)) [
    | inl missing ↦ rw missing (λ id. refl)
    | inr (u, found) ↦ rw found (λ id. omega (
      arith,
      granted-append id db.credit_grants g,
      credits-update_where g.user_id g.credits id db.users found,
      kr.at
          (record db {
            users =
                update_where (λ r. r.id == g.user_id)
                  (λ r. record r { lead_finder_credits = r.lead_finder_credits + g.credits })
                  db.users;
            credit_grants = db.credit_grants ++ g ∷ [];
          })
          id,
    ))
  ];
}
