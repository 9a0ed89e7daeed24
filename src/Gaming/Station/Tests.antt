-- ===== src/Gaming/Station/Tests.antt =====
-- A running session that ends in nine minutes.
use g_manager.Common.{true, false, none, some, [], ◌∷◌, ◌≡◌, refl, leb}
use g_manager.Auth.Types.{AuthUser, employee}
use g_manager.Gaming.Station.{
  GamingStationCard, active, extend, terminate, station_seconds, is_expiring_station, station_timer,
  station_message, start_not_allowed, station_connection, connected,
}
use g_manager.Gaming.Station.Laws.{is_expiring_station_lem}

abbrev eva : AuthUser
eva = record {
  id = "u2";
  name = "Eva";
  email = "eva@example.com";
  role = employee;
  active = true;
  avatar_url = none;
  permissions = none;
}

abbrev card : GamingStationCard
card = record {
  status = active;
  client_enabled = true;
  stale_heartbeat = false;
  session_id = some "s1";
  ends_at = some 1000000;
  remaining_seconds = 700;
  allowed_actions = extend ∷ terminate ∷ [];
  move_target_id = none;
}

seconds : station_seconds card 460000 ≡ 540
unfolding station_seconds
seconds = refl

timer : station_timer 4210 ≡ (1, 10, 10)
unfolding station_timer
timer = refl

says : (station_message card ≡ start_not_allowed) × (station_connection card ≡ connected)
unfolding station_message station_connection
says = (refl, refl)

is_expiring_station_lem_example :
    is_expiring_station card 460000 ≡ leb (station_seconds card 460000) 600
is_expiring_station_lem_example = is_expiring_station_lem card 460000 1000000 refl refl refl
