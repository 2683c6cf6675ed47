-- ===== src/Risk.antt =====
-- src/sessions/risk.service.ts: the score, without the signals that explain it.
use conference_contact.Prelude.{
  ℕ, ◌+◌, ◌-◌, ◌*◌, String, Bool, false, not, ◌&&◌, Option, none, some, List, [], ◌∷◌, ◌==◌, min,
  ltb, any, take, sort_by, filter_where, is_some, if◌then◌else◌,
}
use text.Mathlib.Text.{◌==◌ as str_eq}
use mathlib.Core.List.{reverse}
use conference_contact.Schema.{Db}
use conference_contact.Schema.Accounts.{Session}

pub record AssessRiskInput : Type 0 where
  pub user_id : ℕ
  pub is_new_device : Bool
  pub country : Option String
  pub failed_login_count : ℕ

abbrev impossible_travel_window_ms : ℕ
impossible_travel_window_ms = 60 * 60 * 1000

abbrev is_country : String → Option String → Bool
is_country country none = false
is_country country (some c) = str_eq c country

-- the last five sessions of the user, newest first
abbrev pub recent_sessions : ℕ → Db → List Session
recent_sessions user_id db =
    take 5
      (reverse (sort_by (λ s. s.created_at) (filter_where (λ s. s.user_id == user_id) db.sessions)))

new_country_score : String → List Session → ℕ
new_country_score country recent =
    if any (λ s. is_some s.country) recent && not (any (λ s. is_country country s.country) recent)
    then 25
    else 0

travel_score : String → ℕ → List Session → ℕ
travel_score country now [] = 0
travel_score country now (s ∷ rest) =
    if (is_some s.country && not (is_country country s.country))
      && ltb (now - s.created_at) impossible_travel_window_ms
    then 50
    else 0

country_score : Option String → ℕ → List Session → ℕ
unfolding new_country_score travel_score
country_score none now recent = 0
country_score (some country) now recent =
    new_country_score country recent + travel_score country now recent

unfoldable pub assess : AssessRiskInput → ℕ → Db → ℕ
unfolding country_score
assess input now db =
    (if input.is_new_device then 30 else 0)
    + country_score input.country now (recent_sessions input.user_id db)
    + min (input.failed_login_count * 5) 20
