-- ===== src/Gaming/Station/Laws.antt =====
-- The remaining time of a station, and who may act on it.
use g_manager.Common.{
  ℕ, ◌+◌, ◌*◌, ◌<◌, true, false, not, ◌&&◌, none, some, ◌≡◌, refl, ap, arith, leb,
}
use g_manager.Auth.Types.{
  AuthUser, Permission, gaming_session_start, gaming_session_extend, gaming_session_terminate, Role,
  owner, admin, employee, customer, is_role,
}
use g_manager.Auth.Capabilities.{has_capability, grants, role_capabilities}
use g_manager.Gaming.Station.{
  GamingStationCard, StationAction, cancel_assignment, start, extend, terminate, force_lock,
  confirm_locked, allows, action_capabilities, permits_station_action, is_text, station_seconds,
  is_expiring_station, station_timer,
}

-- While a session runs, a station is marked as expiring exactly when the seconds that it shows are 600
-- at most.
pub is_expiring_station_lem :
    (station : GamingStationCard) (now finish : ℕ)
    → is_text station.move_target_id ≡ false
    → is_text station.session_id ≡ true
    → station.ends_at ≡ some finish
    → is_expiring_station station now ≡ leb (station_seconds station now) 600
unfolding is_expiring_station station_seconds
is_expiring_station_lem station now finish m s e = rw (m, s, e) (ground arith)

-- The hours, minutes and seconds of the timer are the given seconds, with less than sixty minutes and
-- less than sixty seconds.
station_timer_lem :
    (seconds : ℕ)
    → let (h, m, s) = station_timer seconds in
      (h * 3600 + m * 60 + s ≡ seconds) × (m < 60) × (s < 60)
unfolding station_timer
station_timer_lem seconds = ground arith

by_capability :
    (P : Permission → Type 0)
    → P gaming_session_start
    → P gaming_session_extend
    → P gaming_session_terminate
    → (action : StationAction) → P (action_capabilities action)
by_capability P a b c cancel_assignment = a
by_capability P a b c start = a
by_capability P a b c extend = b
by_capability P a b c terminate = c
by_capability P a b c force_lock = c
by_capability P a b c confirm_locked = c

role_grants :
    (role : Role) (action : StationAction)
    → grants (role_capabilities role) (action_capabilities action) ≡ not (is_role role customer)
unfolding role_capabilities
role_grants owner = by_capability (λ p. grants (role_capabilities owner) p ≡ true) refl refl refl
role_grants admin = by_capability (λ p. grants (role_capabilities admin) p ≡ true) refl refl refl
role_grants employee =
    by_capability (λ p. grants (role_capabilities employee) p ≡ true) refl refl refl
role_grants customer =
    by_capability (λ p. grants (role_capabilities customer) p ≡ false) refl refl refl

-- A user without permissions of their own may do on a station all that the server allows there, unless
-- they are a customer, who may do nothing.
permits_station_action_role :
    (user : AuthUser) (station : GamingStationCard) (action : StationAction)
    → user.permissions ≡ none
    → permits_station_action (some user) station action
      ≡ (allows station action && not (is_role user.role customer))
unfolding permits_station_action has_capability
permits_station_action_role user station action h =
    rw h (ap (λ b. allows station action && b) (role_grants user.role action))
