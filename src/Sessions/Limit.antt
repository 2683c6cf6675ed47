-- ===== src/Sessions/Limit.antt =====
-- The cap on concurrent sessions: after `enforceLimit` there is room for one more.
use conference_contact.Prelude.{
  ℕ, ◌∙◌, ◌+◌, ◌≤◌, Bool, List, [], ◌∷◌, ◌==◌, ◌≡◌, refl, length, take, filter_where, update_where,
  count_where, arith, Bool-cases, inl, inr,
}
use conference_contact.Schema.{Db}
use conference_contact.Schema.Accounts.{Session}
use conference_contact.Prelude.Rows.Counts.{
  count_where-sort_by, length-filter_where, length-sort_by, outside, count_where-outside,
  All-any_self,
}
use conference_contact.Action.{ok, ◌>>=◌}
use conference_contact.AuthEnv.{AuthEnv}
use conference_contact.Sessions.{
  open_filter, among, revoked_now, active_sessions, over_by, enforce_limit,
}

-- The sessions that are not among those evicted.
abbrev kept : List Session → Session → Bool
kept = outside (λ e x. e.id == x.id)

-- Who is still open after an eviction.
count_where-evicted :
    (user_id now : ℕ) (es xs : List Session)
    → count_where (open_filter user_id now) (update_where (among es) (revoked_now now) xs)
      ≡ count_where (kept es) (filter_where (open_filter user_id now) xs)
count_where-evicted user_id now es [] = refl
count_where-evicted user_id now es (x ∷ xs) = ground (arith, count_where-evicted user_id now es xs)

length-active_sessions :
    (env : AuthEnv) (user_id : ℕ) (xs : List Session)
    → length (active_sessions env user_id xs) ≡ count_where (open_filter user_id env.now) xs
length-active_sessions env user_id xs =
    length-sort_by (λ s. s.created_at) (filter_where (open_filter user_id env.now) xs)
    ∙ length-filter_where (open_filter user_id env.now) xs

module _ (env : AuthEnv) (user_id : ℕ) (db : Db) where
  -- With a cap of one session or more, `enforceLimit` returns, and the user then has room for one
  -- more session under the cap.
  pub enforce_limit-room :
      1 ≤ env.max_devices
      → ((enforce_limit env user_id db).0 ≡ ok tt)
        × (count_where (open_filter user_id env.now) (enforce_limit env user_id db).1.sessions + 1
            ≤ env.max_devices)
  unfolding enforce_limit ◌>>=◌
  enforce_limit-room some_room =
      let active = active_sessions env user_id db.sessions in
      let n = length-active_sessions env user_id db.sessions in
      elim (Bool-cases (over_by env active == 0)) [
        | inl within ↦ rw within (refl, ground (arith, n))
        | inr over ↦
            (let k = over_by env active in
              let es = take k active in
              let split =
                count_where-outside (λ e x. e.id == x.id) es k active
                  (All-any_self (λ e x. e.id == x.id) (λ a. ground arith) es) in
              let sorted =
                count_where-sort_by (kept es) (λ s. s.created_at)
                  (filter_where (open_filter user_id env.now) db.sessions) in
              rw over (
                refl,
                rw (count_where-evicted user_id env.now es db.sessions)
                    (ground (arith, n, split, sorted)),
              ))
      ]
