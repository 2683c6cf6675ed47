-- ===== src/Guards/Laws.antt =====
-- How the guards relate to each other and to revocation.
use conference_contact.Prelude.{
  ℕ, ◌+◌, ◌*◌, ◌≤◌, ◌<◌, String, true, false, Option, none, some, List, [], ◌∷◌, lt→ltb, arith, ◌≡◌,
  refl, find_latest, filter_where, inl, inr, ◌⊎◌, All, Bool-cases, not, ◌==◌,
}
use conference_contact.Prelude.Rows.Latest.{
  latest_wider, Holds, Holds-filter_where, IsOrOlder, find_latest_newest,
}
use conference_contact.Schema.{Db}
use conference_contact.Schema.Billing.{Subscription, is_canceled, canceled, past_due}
use conference_contact.Schema.Accounts.{is_admin}
use conference_contact.Access.{
  has_active_access, has_directory_access, AccessCheckSubscription, day_ms,
}
use conference_contact.Action.{ok, err, unauthorized, forbidden}
use conference_contact.Revocation.{is_revoked, revoke_user}
use conference_contact.Revocation.Laws.{revoke_user-is_revoked}
use conference_contact.Guards.{
  TokenPayload, subscription_guard, directory_access_guard, jwt_auth_guard, live_filter,
  live_or_canceled_filter, find_user, is_comped, extract_bearer_token, admits, check_payload,
  access_check,
}

directory_of_active :
    (s : AccessCheckSubscription) (grace now : ℕ)
    → has_active_access s grace now ≡ true
    → has_directory_access s grace now ≡ true
unfolding has_directory_access
directory_of_active s grace now h = ground arith

directory_of_canceled :
    (s : AccessCheckSubscription) (grace now : ℕ)
    → is_canceled s.status ≡ true
    → has_directory_access s grace now ≡ true
unfolding has_directory_access
directory_of_canceled s grace now h = ground arith

admits_of_active :
    (o : Option Subscription) (grace now : ℕ)
    → admits has_active_access o grace now ≡ true
    → admits has_directory_access o grace now ≡ true
admits_of_active none grace now h = h
admits_of_active (some s) grace now h = directory_of_active (access_check s) grace now h

admits_of_canceled :
    (o : Option Subscription) (b : Subscription) (user_id grace now : ℕ)
    → o ≡ some b
    → live_or_canceled_filter user_id b ≡ true
    → live_filter user_id b ≡ false
    → admits has_directory_access o grace now ≡ true
admits_of_canceled o b user_id grace now e wide narrow =
    rw e (directory_of_canceled (access_check b) grace now (ground arith))

admits_wider :
    (user_id grace now : ℕ) (subs : List Subscription)
    → admits has_active_access
        (find_latest (live_filter user_id) (λ s. s.created_at) subs)
        grace
        now
      ≡ true
    → admits has_directory_access
        (find_latest (live_or_canceled_filter user_id) (λ s. s.created_at) subs)
        grace
        now
      ≡ true
admits_wider user_id grace now subs h =
    elim (latest_wider (live_filter user_id) (live_or_canceled_filter user_id) (λ s. s.created_at)
      (λ s e. ground arith) subs) [
        | inl same ↦ rw same (admits_of_active _ grace now h)
        | inr (b, e, wide, narrow) ↦ admits_of_canceled _ b user_id grace now e wide narrow
      ]

-- Whoever passes the guard of the paid features passes the guard of the Lead Directory.
pub directory_of_subscription :
    (u : Option TokenPayload) (grace now : ℕ) (db : Db)
    → subscription_guard u grace now db ≡ ok true
    → directory_access_guard u grace now db ≡ ok true
unfolding subscription_guard directory_access_guard
directory_of_subscription none grace now db h = cc
directory_of_subscription (some u) grace now db h =
    ground (arith, admits_wider u.sub grace now db.subscriptions)

-- Without the row `new`, the user's rows that the guard looks at are `old` and older ones.
older_without :
    (user_id : ℕ) (old new : Subscription) (rows : List Subscription)
    → All
        (λ r.
          live_or_canceled_filter user_id r ≡ true
          → (r ≡ new) ⊎ IsOrOlder (λ s. s.created_at) old r)
        rows
    → All
        (λ r. live_or_canceled_filter user_id r ≡ true → IsOrOlder (λ s. s.created_at) old r)
        (filter_where (λ r. not (r.id == new.id)) rows)
older_without user_id old new [] others = tt
older_without user_id old new (r ∷ rows) (here, others) = elim (Bool-cases (r.id == new.id)) [
  | inl gone ↦ rw gone (older_without user_id old new rows others)
  | inr stays ↦ rw stays (
    λ seen. elim (here seen) [
      | inl e ↦
          (let gone : (new.id == new.id) ≡ false = rw e at stays in absurd (ground (arith, gone)))
      | inr older ↦ older
    ],
    older_without user_id old new rows others,
  )
]

newest_of_all :
    (user_id : ℕ) (old new : Subscription)
    → old.created_at < new.created_at
    → (rows : List Subscription)
    → All
        (λ r.
          live_or_canceled_filter user_id r ≡ true
          → (r ≡ new) ⊎ IsOrOlder (λ s. s.created_at) old r)
        rows
    → All (λ r. live_or_canceled_filter user_id r ≡ true → IsOrOlder (λ s. s.created_at) new r) rows
newest_of_all user_id old new newer [] others = tt
newest_of_all user_id old new newer (r ∷ rows) (here, others) = (
  λ seen. elim (here seen) [
    | inl e ↦ inl e
    | inr (inl e) ↦ inr (rw e newer)
    | inr (inr older) ↦ inr (omega (arith, older, newer))
  ],
  newest_of_all user_id old new newer rows others,
)

-- When the table holds a cancelled subscription of a user, who is neither staff nor comped, and a
-- newer past-due one of the same user whose grace period is over, and the user's other rows that are
-- live or cancelled are older than both: the cancelled row alone gives access to the Directory, the
-- guard lets the user in once the newer row is not there, and refuses while it is.
pub lapse_hides_cancellation :
    (u : TokenPayload) (grace now since : ℕ) (old new : Subscription) (db : Db)
    → is_admin u.role ≡ false
    → is_comped (find_user u.sub db) ≡ false
    → Holds old db.subscriptions
    → Holds new db.subscriptions
    → All
        (λ r.
          live_or_canceled_filter u.sub r ≡ true → (r ≡ new) ⊎ IsOrOlder (λ s. s.created_at) old r)
        db.subscriptions
    → (old.user_id ≡ u.sub) × (old.status ≡ canceled)
    → (new.user_id ≡ u.sub) × (new.status ≡ past_due) × (new.past_due_since ≡ some since)
    → (old.id == new.id) ≡ false
    → old.created_at < new.created_at
    → since + grace * day_ms ≤ now
    → let without = record db {
      subscriptions = filter_where (λ r. not (r.id == new.id)) db.subscriptions;
    } in
      (has_directory_access (access_check old) grace now ≡ true)
      × (directory_access_guard (some u) grace now without ≡ ok true)
      × (directory_access_guard (some u) grace now db ≡ err forbidden)
unfolding directory_access_guard has_directory_access
lapse_hides_cancellation u grace now since old new db staff comped has_old has_new others
      (owner, status) (owner', status', since') other_id newer over =
    let looked_at = live_or_canceled_filter u.sub in
    let age = λ (s : Subscription). s.created_at in
    let alone =
      find_latest_newest age old looked_at
        (filter_where (λ r. not (r.id == new.id)) db.subscriptions)
        (Holds-filter_where (λ r. not (r.id == new.id)) old db.subscriptions
          (ground (arith, other_id)) has_old)
        (ground (arith, owner, status)) (older_without u.sub old new db.subscriptions others) in
    let latest =
      find_latest_newest age new looked_at db.subscriptions has_new
        (ground (arith, owner', status'))
        (newest_of_all u.sub old new newer db.subscriptions others) in
    (
      ground arith,
      rw (staff, comped, alone) (ground (arith, status)),
      rw (staff, comped, latest) (ground (arith, status', since', over)),
    )

check_payload_refuses :
    (now : ℕ) (db : Db) (found : Option TokenPayload)
    → ((p : TokenPayload) → found ≡ some p → is_revoked true p.sub now db ≡ true)
    → check_payload true now db found ≡ err unauthorized
unfolding check_payload
check_payload_refuses now db none h = refl
check_payload_refuses now db (some p) h = ground (arith, h p refl)

bearer_refused :
    (verify : String → ℕ → Option TokenPayload) (header : Option String) (now : ℕ) (db : Db)
    (bearer : Option String)
    → extract_bearer_token header ≡ bearer
    → ((t : String) (p : TokenPayload)
        → bearer ≡ some t
        → verify t now ≡ some p
        → is_revoked true p.sub now db ≡ true)
    → jwt_auth_guard verify true false now header db ≡ err unauthorized
unfolding jwt_auth_guard
bearer_refused verify header now db none e h = rw e
bearer_refused verify header now db (some t) e h =
    rw e (check_payload_refuses now db (verify t now) (λ p found. h t p refl found))

-- After a revocation no access token that the user holds opens a route that is not public, at any
-- later time: until the revocation key expires the guard refuses it, and then the token, which was
-- issued before the revocation, has expired. Redis is up throughout.
pub revoked_token_refused :
    (verify : String → ℕ → Option TokenPayload) (token : Option String) (ttl user_id now later : ℕ)
    (db : Db)
    → ((t : String) (at : ℕ) (p : TokenPayload)
        → extract_bearer_token token ≡ some t
        → verify t at ≡ some p
        → (p.sub ≡ user_id) × (at < now + ttl * 1000))
    → jwt_auth_guard verify true false later token (revoke_user true ttl user_id now db).1
      ≡ err unauthorized
revoked_token_refused verify token ttl user_id now later db held =
    bearer_refused verify token later (revoke_user true ttl user_id now db).1
      (extract_bearer_token token) refl
      λ t p e found.
        let (same, alive) = held t later p e found in
        rw (same, revoke_user-is_revoked ttl user_id now later db) (lt→ltb _ _ alive)
