-- ===== src/Routes.antt =====
-- App.tsx: the pages behind the sign-in, each with the capabilities of which its guard asks for one, and
-- auth/CapabilityGuard.tsx. What the pages show is not modelled.
pub mod Laws
mod Tests
use Prim.Native.Char.{code}
use Prim.Native.String
use g_manager.Common.{
  String, Bool, false, Option, none, some, List, [], ◌∷◌, ◌==◌, if◌then◌else◌, any, Dict, lookup,
}
use g_manager.Auth.Types.{
  Permission, AuthUser, dashboard_summary, dashboard_operational, gaming_session_read,
  reservation_read_all, order_read_all, customer_read, resource_read, user_list, catalog_manage,
  working_hours_manage, report_read, audit_read, catalog_read, station_read, reservation_read_own,
  order_read_own, profile_read,
}
use g_manager.Auth.Capabilities.{has_capability}

-- The routes of the shell with their `anyOf`.
abbrev pub guarded_routes : Dict (List Permission)
guarded_routes =
    (
      "/management",
      user_list ∷ catalog_manage ∷ working_hours_manage ∷ report_read ∷ audit_read ∷ [],
    )
    ∷ ("/equipment", resource_read ∷ [])
    ∷ ("/tools", catalog_read ∷ resource_read ∷ station_read ∷ report_read ∷ [])
    ∷ ("/sessions", profile_read ∷ [])
    ∷ ("/profile", profile_read ∷ [])
    ∷ ("/notification-preferences", profile_read ∷ [])
    ∷ ("/catalog", catalog_read ∷ [])
    ∷ ("/resources", resource_read ∷ [])
    ∷ ("/stations", station_read ∷ [])
    ∷ ("/gaming-sessions", gaming_session_read ∷ [])
    ∷ ("/employees", user_list ∷ [])
    ∷ ("/customers", customer_read ∷ [])
    ∷ ("/settings", working_hours_manage ∷ [])
    ∷ ("/employee-time-off", working_hours_manage ∷ [])
    ∷ ("/home", reservation_read_own ∷ order_read_own ∷ [])
    ∷ ("/my-reservations", reservation_read_own ∷ [])
    ∷ ("/my-orders", order_read_own ∷ [])
    ∷ ("/dashboard", dashboard_summary ∷ dashboard_operational ∷ [])
    ∷ ("/reservations", reservation_read_all ∷ [])
    ∷ ("/calendar", reservation_read_all ∷ [])
    ∷ ("/orders", order_read_all ∷ [])
    ∷ ("/waitlist", reservation_read_all ∷ [])
    ∷ ("/users", user_list ∷ [])
    ∷ ("/audit", audit_read ∷ [])
    ∷ ("/reports", report_read ∷ [])
    ∷ []

-- The address without its search part, which the routes do not read.
abbrev pub path_of : String → String
path_of String.[] = ""
path_of (String.◌∷◌ c s) = let rest = path_of s in if code c == 63 then "" else String.◌∷◌ c rest

-- CapabilityGuard: whether it shows the page, and does not lead to /unauthorized.
unfoldable pub capability_guard : List Permission → Option AuthUser → Bool
capability_guard any_of user = any (λ permission. has_capability user permission) any_of

-- Whether the address is one of a guarded page that is shown to the user.
unfoldable pub is_opened : String → AuthUser → Bool
unfolding lookup capability_guard
is_opened address user = elim (lookup (path_of address) guarded_routes) [
  | none ↦ false
  | some any_of ↦ capability_guard any_of (some user)
]
