-- ===== src/LeadFinderBilling/Checkout/Laws.antt =====
-- What a checkout and a cancellation of a tier do with the tier that the user already has.
use conference_contact.Prelude.{
  ℕ, String, true, ◌≡◌, refl, Option-cases, inl, inr, find_first, is_some,
}
use conference_contact.Schema.{Db}
use conference_contact.Action.{◌>>=◌}
use conference_contact.Guards.{find_user}
use conference_contact.Stripe.{Env}
use conference_contact.Subscriptions.Checkout.Laws.{is_error}
use conference_contact.LeadFinderBilling.Checkout.{
  tier_live_filter, find_tier_on_sale, create_tier_checkout_session,
}

-- A checkout of a tier by a user with any live row fails and changes nothing, also when the grace
-- period of a failed payment is over.
pub tier_checkout_refused :
    (env : Env) (user_id : ℕ) (tier_slug : String) (db : Db)
    → is_some (find_first (tier_live_filter user_id) db.lead_finder_subscriptions) ≡ true
    → ((create_tier_checkout_session env user_id tier_slug db).1 ≡ db)
      × (is_error (create_tier_checkout_session env user_id tier_slug db).0 ≡ true)
unfolding create_tier_checkout_session ◌>>=◌
tier_checkout_refused env user_id tier_slug db live = elim (Option-cases (find_user user_id db)) [
  | inl e ↦ rw e (refl, refl)
  | inr (u, e) ↦ rw e (elim (Option-cases (find_tier_on_sale tier_slug db)) [
    | inl e ↦ rw e (refl, refl)
    | inr (p, e) ↦ rw (e, live) (refl, refl)
  ])
]
