-- ===== src/Gaming/Station.antt =====
-- gaming/operationsPresentation.ts: what a card of the operations board offers and says. An instant is a
-- number of milliseconds since 1970, so `Date.parse(endsAt)` has been made, and remaining seconds are
-- whole and not negative. The labels and messages are data.
pub mod Laws
pub mod Tests
use g_manager.Common.{
  ℕ, ◌+◌, ◌-◌, ◌/◌, ◌%◌, String, Bool, true, false, not, ◌&&◌, ◌||◌, Option, none, some, List, [],
  ◌∷◌, ◌===◌, ◌==◌, leb, if◌then◌else◌, any,
}
use g_manager.Auth.Types.{
  AuthUser, Permission, gaming_session_start, gaming_session_extend, gaming_session_terminate,
}
use g_manager.Auth.Capabilities.{has_capability}

-- types/gamingSession.types.ts
pub data StationAction : Type 0 where
  cancel_assignment start extend terminate force_lock confirm_locked : StationAction

pub data BoardStatus : Type 0 where
  waiting_for_login client_error preparation_required transfer_pending available active maintenance
        retired offline expired lock_pending :
      BoardStatus

pub record GamingStationCard : Type 0 where
  pub status : BoardStatus
  pub client_enabled : Bool
  pub stale_heartbeat : Bool
  pub session_id : Option String
  pub ends_at : Option ℕ
  pub remaining_seconds : ℕ
  pub allowed_actions : List StationAction
  pub move_target_id : Option String

abbrev pub action_capabilities : StationAction → Permission
action_capabilities cancel_assignment = gaming_session_start
action_capabilities start = gaming_session_start
action_capabilities extend = gaming_session_extend
action_capabilities terminate = gaming_session_terminate
action_capabilities force_lock = gaming_session_terminate
action_capabilities confirm_locked = gaming_session_terminate

abbrev pub action_ordinal : StationAction → ℕ
action_ordinal cancel_assignment = 0
action_ordinal start = 1
action_ordinal extend = 2
action_ordinal terminate = 3
action_ordinal force_lock = 4
action_ordinal confirm_locked = 5

-- station.allowedActions.includes(action)
abbrev pub allows : GamingStationCard → StationAction → Bool
allows station action = any (λ a. action_ordinal a == action_ordinal action) station.allowed_actions

unfoldable pub permits_station_action : Option AuthUser → GamingStationCard → StationAction → Bool
permits_station_action actor station action =
    allows station action && has_capability actor (action_capabilities action)

-- A text that is there and not empty.
abbrev pub is_text : Option String → Bool
is_text none = false
is_text (some t) = not (t === "")

unfoldable pub station_seconds : GamingStationCard → (now : ℕ) → ℕ
station_seconds station now =
    if is_text station.move_target_id
    then station.remaining_seconds
    else if is_text station.session_id
    then elim station.ends_at [
      | none ↦ station.remaining_seconds
      | some finish ↦ ((finish - now) + 999) / 1000
    ]
    else station.remaining_seconds

unfoldable pub is_expiring_station : GamingStationCard → (now : ℕ) → Bool
is_expiring_station station now =
    not (is_text station.move_target_id)
    && (is_text station.session_id
        && (elim station.ends_at [ none ↦ false | some finish ↦ leb finish (now + 600000) ]))

-- The hours, minutes and seconds that the timer shows.
unfoldable pub station_timer : ℕ → ℕ × ℕ × ℕ
station_timer value = (value / 3600, value % 3600 / 60, value % 60)

pub data Connection : Type 0 where
  manual unconfirmed connected : Connection

abbrev pub is_offline : BoardStatus → Bool
is_offline offline = true
is_offline _ = false

unfoldable pub station_connection : GamingStationCard → Connection
station_connection station =
    if not station.client_enabled
    then manual
    else if station.stale_heartbeat || is_offline station.status
    then unconfirmed
    else connected

pub data Message : Type 0 where
  assigned reports_problem check_profile reserved_for_move awaits_lock check_network check_lock
        under_maintenance out_of_use ready_to_start start_not_allowed :
      Message

unfoldable pub station_message : GamingStationCard → Message
station_message station =
    let free = if allows station start then ready_to_start else start_not_allowed in
    elim station.status [
      | waiting_for_login ↦ assigned
      | client_error ↦ reports_problem
      | preparation_required ↦ check_profile
      | transfer_pending ↦ reserved_for_move
      | lock_pending ↦ awaits_lock
      | offline ↦ check_network
      | expired ↦ check_lock
      | maintenance ↦ under_maintenance
      | retired ↦ out_of_use
      | available ↦ free
      | active ↦ free
    ]
