-- ===== src/Examples/Accounts.antt =====
-- The theorems on accounts, at concrete inputs.
use conference_contact.Prelude.{
  none, ◌+◌, ℕ, ◌+◌, ◌*◌, ◌≤◌, ◌≡◌, refl, true, false, Option, none, some, [], ◌∷◌, ltb,
  count_where, arith, String, if◌then◌else◌,
}
use conference_contact.Schema.{Db}
use conference_contact.Action.{ok, err, unauthorized, bad_request}
use conference_contact.Auth.Erasure.{erased, delete_account}
use conference_contact.Auth.Erasure.Laws.{delete_account_shuts}
use conference_contact.Auth.Login.{login}
use conference_contact.Auth.Login.Laws.{attempts, lockout}
use conference_contact.Auth.Recovery.{reset_password}
use conference_contact.Auth.Recovery.Laws.{reset_password_once}
use conference_contact.Auth.Refresh.{refresh}
use conference_contact.Auth.Controller.{RefreshCookie, RouteEnv, logout_route, refresh_route}
use conference_contact.Auth.Controller.Laws.{logged_out_for_good}
use conference_contact.Auth.Refresh.Laws.{AllRevoked, rotated_pair}
use conference_contact.Auth.Refresh.Replay.{later_env, refresh_in_grace, refresh_after_grace}
use conference_contact.Guards.{find_user, jwt_auth_guard, TokenPayload}
use conference_contact.Guards.Laws.{revoked_token_refused}
use conference_contact.Revocation.{is_revoked, revoke_user}
use conference_contact.Revocation.Laws.{passed_attempts, challenge_attempts_capped}
use conference_contact.Sessions.{
  open_filter, enforce_limit, find_active_by_raw_token, find_any_by_raw_token,
}
use conference_contact.Sessions.Limit.{enforce_limit-room}
use conference_contact.Examples.{ada, empty_db, auth_env, ada_token, session, reset_link}

abbrev signed_in : Db
signed_in = record empty_db { sessions = session ∷ [] }

abbrev with_link : Db
with_link = record empty_db { verification_tokens = reset_link ∷ [] }

refresh_after_grace_example :
    let db' = (refresh auth_env 50 signed_in).1 in
    let again = later_env auth_env 20000 10 61 in
    ((refresh auth_env 50 signed_in).0 ≡ ok (rotated_pair auth_env ada))
    × ((refresh again 50 db').0 ≡ err unauthorized)
    × AllRevoked 1 (refresh again 50 db').1.sessions
unfolding find_active_by_raw_token find_any_by_raw_token
refresh_after_grace_example =
    refresh_after_grace auth_env 50 signed_in 20000 10 61 {s = session} {u = ada} refl refl refl
      refl ((λ h. refl), tt) refl refl (omega arith)

refresh_in_grace_example :
    let db' = (refresh auth_env 50 signed_in).1 in
    let again = later_env auth_env 2000 10 61 in
    ((refresh auth_env 50 signed_in).0 ≡ ok (rotated_pair auth_env ada))
    × ((refresh again 50 db').0 ≡ ok (rotated_pair again ada))
unfolding find_active_by_raw_token find_any_by_raw_token
refresh_in_grace_example =
    refresh_in_grace auth_env 50 signed_in 2000 10 61 {s = session} {u = ada} refl refl refl refl
      ((λ h. refl), tt) refl refl (omega arith) (omega arith)

lockout_example :
    let db' = attempts auth_env "ada@example.com" 8 90 2 empty_db in
    login (record auth_env { now = 2000 }) "ada@example.com" 7 90 db' ≡ (err unauthorized, db')
lockout_example =
    lockout auth_env "ada@example.com" 8 90 1 empty_db 2000 7 90 {u = ada} refl refl refl refl refl
      refl (omega arith)

challenge_attempts_capped_example :
    passed_attempts 4 600 (1000 ∷ 1001 ∷ 1002 ∷ 1003 ∷ 1004 ∷ 1005 ∷ []) empty_db ≤ 5
challenge_attempts_capped_example =
    challenge_attempts_capped 4 600 1000 (1001 ∷ 1002 ∷ 1003 ∷ 1004 ∷ 1005 ∷ []) empty_db refl
      (omega arith, (omega arith, (omega arith, (omega arith, (omega arith, tt)))))

enforce_limit-room_example :
    ((enforce_limit auth_env 1 signed_in).0 ≡ ok tt)
    × (count_where (open_filter 1 1000) (enforce_limit auth_env 1 signed_in).1.sessions + 1 ≤ 1)
enforce_limit-room_example = enforce_limit-room auth_env 1 signed_in (omega arith)

delete_account_shuts_example :
    let (result, db') = delete_account auth_env (λ id. true) 1 7 signed_in in
    (result ≡ ok tt)
    × (find_user 1 db' ≡ some (erased 1000 ada))
    × AllRevoked 1 db'.sessions
    × (is_revoked true 1 2000 db' ≡ ltb 2000 (1000 + 900 * 1000))
delete_account_shuts_example =
    delete_account_shuts auth_env (λ id. true) 1 7 2000 signed_in {u = ada} refl refl refl
      (λ id. refl)

reset_password_once_example :
    let (result, db') = reset_password auth_env 70 8 with_link in
    (result ≡ ok tt)
    × (reset_password (record auth_env { now = 3000 }) 70 9 db' ≡ (err bad_request, db'))
reset_password_once_example =
    reset_password_once auth_env 70 8 9 3000 with_link {t = reset_link} {u = ada} refl refl refl
      refl refl

-- Access tokens of Ada's that are valid for fifteen minutes from time 0.
abbrev verify : String → ℕ → Option TokenPayload
verify token at = if ltb at 900000 then some ada_token else none

revoked_token_refused_example :
    jwt_auth_guard verify true false 5000 (some "Bearer t") (revoke_user true 900 1 1000 empty_db).1
    ≡ err unauthorized
revoked_token_refused_example =
    revoked_token_refused verify (some "Bearer t") 900 1 1000 5000 empty_db
      (λ t at p e found. ground arith)

abbrev route_env : RouteEnv
route_env = record { auth = auth_env; fresh_device_id = 70; fingerprint = λ id. id + 1 }

abbrev cookie : RefreshCookie
cookie = record { token = 50; expires = 100000 }

logged_out_for_good_example :
    let out =
      logout_route route_env
        (record { refresh_cookie = some cookie; device_id = some 8 })
        signed_in in
    let again = record route_env { auth = record auth_env { now = 3000 } } in
    let copy =
      refresh_route again (record { refresh_cookie = some cookie; device_id = none }) out.db in
    (out.body ≡ ok tt)
    × (out.jar.refresh_cookie ≡ none)
    × ((refresh_route again out.jar out.db).body ≡ ok none)
    × (copy.body ≡ err unauthorized)
    × (copy.jar.refresh_cookie ≡ none)
    × AllRevoked 1 copy.db.sessions
unfolding find_active_by_raw_token find_any_by_raw_token
logged_out_for_good_example =
    logged_out_for_good route_env cookie (some 8) none 3000 signed_in {s = session} refl refl
      ((λ h. refl), tt) refl
