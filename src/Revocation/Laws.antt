-- ===== src/Revocation/Laws.antt =====
-- What an instant revocation and the cap on login challenges guarantee.
use conference_contact.Prelude.{
  ℕ, suc, ◌+◌, ◌*◌, ◌≤◌, ◌<◌, true, false, some, List, [], ◌∷◌, ltb, leb, arith, ◌≡◌, refl, any,
  filter_where, not, ◌==◌, ◌&&◌, All, min, if◌then◌else◌,
}
use conference_contact.Schema.{Db, Counter, login_challenge}
use conference_contact.Action.{ok, err}
use conference_contact.Revocation.{
  revoke_user, is_revoked, register_challenge_attempt, current_count, key_eq,
}

module _ (user_id now : ℕ) where
  any-filter_self :
      (es : List (ℕ × ℕ))
      → any (λ e. e.0 == user_id && ltb now e.1) (filter_where (λ e. not (e.0 == user_id)) es)
        ≡ false
  any-filter_self [] = refl
  any-filter_self (e ∷ es) = ground (arith, any-filter_self es)

-- With Redis up, a revoked user is refused from then on for exactly the lifetime of an access
-- token, whatever was revoked before.
pub revoke_user-is_revoked :
    (ttl user_id now later : ℕ) (db : Db)
    → is_revoked true user_id later (revoke_user true ttl user_id now db).1
      ≡ ltb later (now + ttl * 1000)
unfolding revoke_user is_revoked
revoke_user-is_revoked ttl user_id now later db =
    ground (arith, any-filter_self user_id later db.revocations)

-- How many of the attempts at one challenge, made at the given times, are let through.
pub passed_attempts : ℕ → ℕ → List ℕ → Db → ℕ
passed_attempts hash ttl [] db = 0
passed_attempts hash ttl (now ∷ times) db =
    let (r, db') = register_challenge_attempt true hash ttl now db in
    let later = passed_attempts hash ttl times db' in
    elim r [ ok passed ↦ if passed then suc later else later | err e ↦ later ]

-- Once the key counts `c` attempts and lives until `expiry`, at most `5 - c` more pass before then.
passed_attempts_counted :
    (hash ttl c expiry : ℕ) (rest : List Counter) (times : List ℕ) (db : Db)
    → db.counters
      ≡ record { key = login_challenge hash; count = c; expires_at = some expiry } ∷ rest
    → 1 ≤ c
    → All (λ t. t < expiry) times
    → passed_attempts hash ttl times db + min c 5 ≤ 5
unfolding passed_attempts
passed_attempts_counted hash ttl c expiry rest [] db e h all = omega arith
passed_attempts_counted hash ttl c expiry rest (now ∷ times) db e h all =
    let db' = (register_challenge_attempt true hash ttl now db).1 in
    let step : db'.counters
        ≡ record { key = login_challenge hash; count = c + 1; expires_at = some expiry }
          ∷ filter_where (λ x. not (key_eq x.key (login_challenge hash))) rest =
      unfold register_challenge_attempt in rw e (ground (arith, all.0)) in
    let passes : (register_challenge_attempt true hash ttl now db).0 ≡ ok (leb (c + 1) 5) =
      unfold register_challenge_attempt in rw e (ground (arith, all.0)) in
    let ih = passed_attempts_counted hash ttl (c + 1) expiry _ times db' step (omega arith) all.1 in
    ground (arith, passes, ih)

-- Of all attempts at one login challenge, made from the first attempt until the time to live that
-- it starts has run out, at most five are let through, while Redis answers.
pub challenge_attempts_capped :
    (hash ttl now : ℕ) (times : List ℕ) (db : Db)
    → current_count (login_challenge hash) now db.counters ≡ 0
    → All (λ t. t < now + ttl * 1000) times
    → passed_attempts hash ttl (now ∷ times) db ≤ 5
unfolding passed_attempts
challenge_attempts_capped hash ttl now times db fresh all =
    let db' = (register_challenge_attempt true hash ttl now db).1 in
    let step : db'.counters
        ≡ record { key = login_challenge hash; count = 1; expires_at = some (now + ttl * 1000) }
          ∷ filter_where (λ x. not (key_eq x.key (login_challenge hash))) db.counters =
      unfold register_challenge_attempt in rw fresh refl in
    let passes : (register_challenge_attempt true hash ttl now db).0 ≡ ok true =
      unfold register_challenge_attempt in rw fresh refl in
    let ih =
      passed_attempts_counted hash ttl 1 (now + ttl * 1000) _ times db' step (omega arith) all in
    ground (arith, passes, ih)
