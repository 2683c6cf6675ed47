-- ===== src/Revocation.antt =====
-- src/common/token-revocation/token-revocation.service.ts. `up` says whether Redis answers.
pub mod Laws
use conference_contact.Prelude.{
  ℕ, zero, suc, ◌+◌, ◌*◌, Bool, true, false, ◌&&◌, ◌||◌, Option, none, some, List, [], ◌∷◌, ltb,
  leb, ◌==◌, any, filter_where, find_first, is_some, not, if◌then◌else◌,
}
use conference_contact.Schema.{Db, Counter, CounterKey, login_challenge, anonymous_search}
use conference_contact.Action.{Action, pure, modify, skip}

abbrev pub max_challenge_attempts : ℕ
max_challenge_attempts = 5

-- SET with EX replaces the key and its time to live; a failure of Redis is swallowed.
unfoldable pub revoke_user : Bool → ℕ → ℕ → ℕ → Action (Unit {0})
unfolding modify skip
revoke_user up access_token_ttl_seconds user_id now =
    if up
    then (modify λ db. record db {
      revocations =
          (user_id, now + access_token_ttl_seconds * 1000)
          ∷ filter_where (λ e. not (e.0 == user_id)) db.revocations;
    })
    else skip

-- EXISTS, which fails open
unfoldable pub is_revoked : Bool → ℕ → ℕ → Db → Bool
is_revoked up user_id now db = up && any (λ e. e.0 == user_id && ltb now e.1) db.revocations

abbrev pub key_eq : CounterKey → CounterKey → Bool
key_eq (login_challenge a) (login_challenge b) = a == b
key_eq (anonymous_search a) (anonymous_search b) = a == b
key_eq _ _ = false

abbrev pub is_alive : ℕ → Counter → Bool
is_alive now c = elim c.expires_at [ none ↦ true | some t ↦ ltb now t ]

abbrev pub current_count : CounterKey → ℕ → List Counter → ℕ
current_count k now [] = 0
current_count k now (c ∷ cs) =
    if key_eq c.key k && is_alive now c then c.count else current_count k now cs

abbrev pub current_expiry : CounterKey → ℕ → List Counter → Option ℕ
current_expiry k now [] = none
current_expiry k now (c ∷ cs) =
    if key_eq c.key k && is_alive now c then c.expires_at else current_expiry k now cs

-- INCR, and EXPIRE when the count is 1; `ttl` is in milliseconds
unfoldable pub count_up : CounterKey → ℕ → ℕ → Db → ℕ × Db
count_up k ttl now db =
    let count = current_count k now db.counters + 1 in
    let expires_at = if count == 1 then some (now + ttl) else current_expiry k now db.counters in
    (
      count,
      record db {
        counters =
            record { key = k; count = count; expires_at = expires_at }
            ∷ filter_where (λ c. not (key_eq c.key k)) db.counters;
      },
    )

-- Whether this attempt at the challenge is within the cap; a failure of Redis lets it pass.
unfoldable pub register_challenge_attempt : Bool → ℕ → ℕ → ℕ → Action Bool
unfolding count_up pure
register_challenge_attempt up challenge_hash ttl_seconds now db =
    if up
    then (let (count, db') =
          count_up (login_challenge challenge_hash) (ttl_seconds * 1000) now db in
        pure (leb count max_challenge_attempts) db')
    else pure true db
