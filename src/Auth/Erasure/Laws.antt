-- ===== src/Auth/Erasure/Laws.antt =====
-- What the erasure of an account shuts off.
use conference_contact.Prelude.{
  ℕ, Bool, true, not, ◌&&◌, some, ◌==◌, ◌≡◌, refl, ◌+◌, ◌*◌, ltb, is_some, find_first, update_where,
  Option-cases, inl, inr, arith,
}
use conference_contact.Prelude.Rows.Updates.{find_first-update_where, find_first_matches}
use conference_contact.Schema.{Db}
use conference_contact.Schema.Accounts.{User}
use conference_contact.Action.{ok, ◌>>=◌}
use conference_contact.AuthEnv.{AuthEnv}
use conference_contact.Auth.Erasure.{erased, delete_account}
use conference_contact.Auth.Refresh.Laws.{AllRevoked, AllRevoked-revoke}
use conference_contact.Guards.{find_user, live_filter}
use conference_contact.Revocation.{revoke_user, is_revoked}
use conference_contact.Revocation.Laws.{revoke_user-is_revoked}
use conference_contact.Sessions.{revoked_now}

-- With the right password, with Redis up and when Stripe accepts to cancel a subscription, the
-- erasure returns; the user's row is then marked deleted, every session of the user is revoked, and
-- the access tokens that are out are refused for their whole lifetime.
pub delete_account_shuts :
    (env : AuthEnv) (cancel_at_stripe : ℕ → Bool) (user_id password later : ℕ) (db : Db) {u : User}
    → find_user user_id db ≡ some u
    → env.password_matches u.password_hash password ≡ true
    → env.redis_up ≡ true
    → ((id : ℕ) → cancel_at_stripe id ≡ true)
    → let (result, db') = delete_account env cancel_at_stripe user_id password db in
      (result ≡ ok tt)
      × (find_user user_id db' ≡ some (erased env.now u))
      × AllRevoked user_id db'.sessions
      × (is_revoked true user_id later db'
          ≡ ltb later (env.now + env.access_token_ttl_seconds * 1000))
unfolding delete_account ◌>>=◌ is_revoked revoke_user
delete_account_shuts env cancel_at_stripe user_id password later db {u} found right up accepts =
    elim (Option-cases (find_first (live_filter user_id) db.subscriptions)) [
      | inl e ↦ rw (found, right, e, up) (refl, marked, gone, refused db)
      | inr (s, e) ↦
          rw (found, right, e, accepts s.stripe_subscription_id, up)
            (refl, marked, gone, refused db)
    ]
  where
    marked :
        find_first
          (λ r. r.id == user_id)
          (update_where (λ r. r.id == user_id) (erased env.now) db.users)
        ≡ some (erased env.now u)
    marked =
        rw
          (
            find_first-update_where (λ r. r.id == user_id) (λ r. r.id == user_id) (erased env.now)
                (λ r. refl) db.users,
            found,
          )
          (ground (arith, find_first_matches (λ (r : User). r.id == user_id) db.users found))

    gone : AllRevoked user_id (
        update_where
          (λ x. x.user_id == user_id && not (is_some x.revoked_at))
          (revoked_now env.now)
          db.sessions)
    gone = AllRevoked-revoke user_id env.now db.sessions

    refused :
        (a : Db)
        → is_revoked true user_id later
            (revoke_user true env.access_token_ttl_seconds user_id env.now a).1
          ≡ ltb later (env.now + env.access_token_ttl_seconds * 1000)
    refused a = revoke_user-is_revoked env.access_token_ttl_seconds user_id env.now later a
