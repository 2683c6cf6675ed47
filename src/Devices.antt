-- ===== src/Devices.antt =====
-- src/sessions/devices.service.ts.
use conference_contact.Prelude.{
  ℕ, Bool, true, false, not, ◌&&◌, Option, none, some, [], ◌∷◌, ◌++◌, ◌==◌, leb, find_first,
  filter_where, update_where, count_where, is_some, is_value, if◌then◌else◌,
}
use conference_contact.Schema.{Db}
use conference_contact.Schema.Accounts.{Device}
use conference_contact.Action.{
  Action, not_found, forbidden, pure, raise_if, gets, or_raise, modify, ◌>>=◌, ◌>>◌,
}
use conference_contact.AuthEnv.{AuthEnv}
use conference_contact.Sessions.{revoked_now}

-- `!device || device.userId !== userId`
abbrev pub own_device : ℕ → ℕ → Db → Option Device
own_device user_id device_id db =
    find_first (λ d. d.id == device_id && d.user_id == user_id) db.devices

abbrev pub trusted_filter : ℕ → Device → Bool
trusted_filter user_id d = d.user_id == user_id && d.is_trusted

-- `onDelete: SetNull`
abbrev pub unlinked : Option ℕ → ℕ → Option ℕ
unlinked link device_id = if is_value link device_id then none else link

module _ (env : AuthEnv) where
  unfoldable pub new_device : ℕ → ℕ → Device
  new_device user_id fingerprint = record {
    id = env.fresh;
    user_id = user_id;
    fingerprint = fingerprint;
    is_trusted = false;
    trusted_at = none;
    last_seen_at = env.now;
  }

  -- the device, and whether it is new
  seen : ℕ → ℕ → Option Device → Action (Device × Bool)
  unfolding new_device
  seen user_id fingerprint none = do
    modify (λ db. record db { devices = db.devices ++ new_device user_id fingerprint ∷ [] })
    pure (new_device user_id fingerprint, true)
  seen user_id fingerprint (some d) = do
    modify (λ db. record db {
      devices =
          update_where (λ r. r.id == d.id) (λ r. record r { last_seen_at = env.now }) db.devices;
    })
    pure (record d { last_seen_at = env.now }, false)

  unfoldable pub find_or_create_device : ℕ → ℕ → Action (Device × Bool)
  unfolding seen
  find_or_create_device user_id fingerprint = do
    existing ←
        gets
          (λ db. find_first (λ d. d.user_id == user_id && d.fingerprint == fingerprint) db.devices)
    seen user_id fingerprint existing

  unfoldable pub trust : ℕ → ℕ → Action (Unit {0})
  trust user_id device_id = do
    or_raise (← gets (own_device user_id device_id)) not_found
    trusted_count ← gets (λ db. count_where (trusted_filter user_id) db.devices)
    raise_if (leb env.max_devices trusted_count) forbidden
    modify (λ db. record db {
      devices =
          update_where (λ d. d.id == device_id)
            (λ d. record d { is_trusted = true; trusted_at = some env.now }) db.devices;
    })

  -- The sessions of the device are revoked, the device is deleted, and its sessions lose the link.
  unfoldable pub remove : ℕ → ℕ → Action (Unit {0})
  remove user_id device_id = do
    or_raise (← gets (own_device user_id device_id)) not_found
    modify (λ db. record db {
      sessions =
          update_where (λ s. is_value s.device_id device_id)
            (λ s. record s { device_id = unlinked s.device_id device_id })
            (update_where (λ s. is_value s.device_id device_id && not (is_some s.revoked_at))
              (revoked_now env.now) db.sessions);
      devices = filter_where (λ d. not (d.id == device_id)) db.devices;
    })
