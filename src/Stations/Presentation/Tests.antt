-- ===== src/Stations/Presentation/Tests.antt =====
-- A station that works, and versions.
use g_manager.Common.{true, false, none, some, [], ◌∷◌, ◌≡◌, refl}
use g_manager.Stations.Presentation.{
  StationView, LiveStation, is_newer_client_version, problematic_station, station_warnings,
  sequence_text,
}
use g_manager.Stations.Presentation.Laws.{station_warnings_none}

abbrev connected : LiveStation
connected = record {
  status = "ACTIVE";
  stale_heartbeat = false;
  enforcement_status = "UNLOCKED";
  command_sequence = some 7;
  command_acknowledged_at = some "2026-05-04T10:00Z";
  client_error_code = none;
  update_status = none;
}

abbrev station : StationView
station = record {
  live = some connected;
  station_profile_id = some "p1";
  application_profile_id = some "a1";
  operational_status = "AVAILABLE";
  effective_status = "IN_SESSION";
  client_enabled = true;
  last_heartbeat_at = some "2026-05-04T10:00Z";
}

newer :
    (is_newer_client_version (some "1.10.0") (some "1.9.9.1") ≡ true)
    × (is_newer_client_version (some "1.9.9") (some "1.9.9.0") ≡ false)
    × (is_newer_client_version (some "1.9") none ≡ false)
unfolding is_newer_client_version
newer = (refl, refl, refl)

not_acknowledged :
    station_warnings
      (record station { live = some (record connected { command_acknowledged_at = none }) })
    ≡ "Komanda #7 čeka potvrdu klijenta." ∷ []
unfolding station_warnings sequence_text
not_acknowledged = refl

station_warnings_none_example : station_warnings station ≡ []
unfolding problematic_station
station_warnings_none_example = station_warnings_none station refl
