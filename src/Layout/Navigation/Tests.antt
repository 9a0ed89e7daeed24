-- ===== src/Layout/Navigation/Tests.antt =====
-- A run of the navigation for a customer, an employee with few permissions and an owner.
use g_manager.Common.{String, true, Option, none, some, List, [], ◌∷◌, ◌≡◌, refl, map}
use g_manager.Auth.Types.{
  Role, owner, employee, customer, AuthUser, Permission, station_read, working_hours_manage,
}
use g_manager.Auth.Features.{defaults}
use g_manager.Auth.Capabilities.{has_capability}
use g_manager.Layout.Navigation.{
  to_of, navigation_for, management_items, permitted_items, home_for_user,
}
use g_manager.Layout.Navigation.Laws.{IsAllowed, home_for_user-IsAllowed}

abbrev user_with : Role → Option (List Permission) → AuthUser
user_with role permissions = record {
  id = "u1";
  name = "Ana";
  email = "ana@example.com";
  role = role;
  active = true;
  avatar_url = none;
  permissions = permissions;
}

abbrev boss : AuthUser
boss = user_with owner none

abbrev helper : AuthUser
helper = user_with employee (some (station_read ∷ working_hours_manage ∷ []))

abbrev guest : AuthUser
guest = user_with customer (some [])

boss-home : home_for_user boss defaults ≡ "/dashboard"
unfolding home_for_user has_capability
boss-home = refl

helper-home : home_for_user helper defaults ≡ "/tools"
unfolding home_for_user navigation_for permitted_items has_capability
helper-home = refl

guest-home : home_for_user guest defaults ≡ "/unauthorized"
unfolding home_for_user has_capability
guest-home = refl

helper-management :
    map to_of (permitted_items helper defaults management_items)
    ≡ "/employee-time-off" ∷ "/settings" ∷ []
unfolding permitted_items has_capability
helper-management = refl

home_for_user-IsAllowed_example : IsAllowed helper defaults (home_for_user helper defaults)
home_for_user-IsAllowed_example = home_for_user-IsAllowed helper defaults

abbrev page : String
page = "/my-reservations"
