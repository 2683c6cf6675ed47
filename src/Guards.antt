-- ===== src/Guards.antt =====
-- src/subscriptions/guards/*.ts and src/auth/guards/*.ts: what stands between a request and a
-- route. `jwtService.verifyAsync` is the argument `verify`; `none` is its exception.
pub mod Strings
pub mod Laws
pub use Strings.*
use conference_contact.Prelude.{
  ℕ, String, Bool, true, false, not, ◌&&◌, ◌||◌, Option, none, some, List, [], ◌∷◌, ◌==◌, any,
  find_first, find_latest, if◌then◌else◌,
}
use conference_contact.Schema.{Db}
use conference_contact.Schema.Accounts.{Role, user, premium, admin, super_admin, is_admin, User}
use conference_contact.Schema.Billing.{Subscription, SubscriptionStatus, is_live, is_canceled}
use conference_contact.Access.{AccessCheckSubscription, has_active_access, has_directory_access}
use conference_contact.Action.{Result, ok, err, unauthorized, forbidden}
use conference_contact.Revocation.{is_revoked}

pub data TokenType : Type 0 where
  access login_challenge : TokenType

-- `AccessTokenPayload`, with the `type` of any token that the same key signs
pub record TokenPayload : Type 0 where
  pub sub : ℕ
  pub role : Role
  pub type : TokenType
  pub impersonated_by : Option ℕ

abbrev pub find_user : ℕ → Db → Option User
find_user id db = find_first (λ u. u.id == id) db.users

-- the two fields that the access rules read
abbrev pub access_check : Subscription → AccessCheckSubscription
access_check s = record { status = s.status; past_due_since = s.past_due_since }

-- `dbUser?.adminGrantedDirectoryAccess`
abbrev pub is_comped : Option User → Bool
is_comped none = false
is_comped (some u) = u.admin_granted_directory_access

abbrev pub live_filter : ℕ → Subscription → Bool
live_filter user_id s = s.user_id == user_id && is_live s.status

abbrev pub live_or_canceled_filter : ℕ → Subscription → Bool
live_or_canceled_filter user_id s =
    s.user_id == user_id && (is_live s.status || is_canceled s.status)

-- the test on the subscription that a guard found
abbrev pub admits : (AccessCheckSubscription → ℕ → ℕ → Bool) → Option Subscription → ℕ → ℕ → Bool
admits test none grace now = false
admits test (some s) grace now = test (access_check s) grace now

unfoldable pub subscription_guard : Option TokenPayload → ℕ → ℕ → Db → Result Bool
subscription_guard none grace now db = err unauthorized
subscription_guard (some u) grace now db =
    if is_admin u.role
    then ok true
    else if is_comped (find_user u.sub db)
    then ok true
    else if admits has_active_access
        (find_latest (live_filter u.sub) (λ s. s.created_at) db.subscriptions) grace now
    then ok true
    else err forbidden

unfoldable pub directory_access_guard : Option TokenPayload → ℕ → ℕ → Db → Result Bool
directory_access_guard none grace now db = err unauthorized
directory_access_guard (some u) grace now db =
    if is_admin u.role
    then ok true
    else if is_comped (find_user u.sub db)
    then ok true
    else if admits has_directory_access
        (find_latest (live_or_canceled_filter u.sub) (λ s. s.created_at) db.subscriptions) grace now
    then ok true
    else err forbidden

abbrev pub role_eq : Role → Role → Bool
role_eq user user = true
role_eq premium premium = true
role_eq admin admin = true
role_eq super_admin super_admin = true
role_eq _ _ = false

-- `required` is empty on a route without `@Roles`
unfoldable pub roles_guard : List Role → Option TokenPayload → Result Bool
roles_guard [] u = ok true
roles_guard (r ∷ rs) none = err unauthorized
roles_guard (r ∷ rs) (some u) =
    if any (λ x. role_eq x u.role) (r ∷ rs) then ok true else err forbidden

abbrev pub is_access : TokenType → Bool
is_access access = true
is_access login_challenge = false

-- the checks on a verified payload
check_payload : Bool → ℕ → Db → Option TokenPayload → Result (Option TokenPayload)
check_payload up now db none = err unauthorized
check_payload up now db (some payload) =
    if not (is_access payload.type)
    then err unauthorized
    else if is_revoked up payload.sub now db
    then err unauthorized
    else ok (some payload)

-- The result is what the guard attaches to the request: nothing on a public route.
unfoldable pub jwt_auth_guard :
    (String → ℕ → Option TokenPayload)
    → Bool
    → Bool
    → ℕ
    → Option String
    → Db
    → Result (Option TokenPayload)
unfolding check_payload
jwt_auth_guard verify up is_public now authorization db =
    if is_public then ok none else elim (extract_bearer_token authorization) [
      | none ↦ err unauthorized
      | some token ↦ check_payload up now db (verify token now)
    ]
