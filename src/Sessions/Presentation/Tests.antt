-- ===== src/Sessions/Presentation/Tests.antt =====
-- Two logins and a refresh.
use g_manager.Common.{ℕ, String, Option, some, List, [], ◌∷◌, ◌≡◌, refl, filter, length, codes}
use g_manager.Sessions.Presentation.{
  SecurityEvent, login_success, token_refresh, is_dated_login, latest_login, device_icon, phone,
  monitor, devices,
}
use g_manager.Sessions.Presentation.Laws.{Finds, latest_login-IsLatest}

-- The time is the length of the text.
abbrev parse : String → Option ℕ
parse t = some (length (codes t))

abbrev events : List SecurityEvent
events =
    record { kind = login_success; occurred_at = "1" }
    ∷ record { kind = token_refresh; occurred_at = "333" }
    ∷ record { kind = login_success; occurred_at = "22" }
    ∷ []

latest : latest_login parse events ≡ some (record { kind = login_success; occurred_at = "22" })
unfolding latest_login
latest = refl

icons :
    (device_icon "Stoni RAČUNAR" "" ≡ monitor)
    × (device_icon "" "Mobile Safari, Android" ≡ phone)
    × (device_icon "tabletop" "" ≡ devices)
unfolding device_icon
icons = (refl, refl, refl)

latest_login-IsLatest_example :
    Finds parse events (filter (is_dated_login parse) events) (latest_login parse events)
latest_login-IsLatest_example = latest_login-IsLatest parse events
