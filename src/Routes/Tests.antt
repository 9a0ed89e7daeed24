-- ===== src/Routes/Tests.antt =====
-- An employee who may do few things.
use g_manager.Common.{true, false, none, some, [], ◌∷◌, ◌≡◌, refl, All}
use g_manager.Auth.Types.{AuthUser, employee, customer_read, station_read}
use g_manager.Auth.Features.{defaults}
use g_manager.Auth.Capabilities.{has_capability}
use g_manager.Layout.Navigation.{to_of, navigation_for}
use g_manager.Routes.{is_opened}
use g_manager.Routes.Laws.{navigation_for-IsOpened}

abbrev helper : AuthUser
helper = record {
  id = "u1";
  name = "Ana";
  email = "ana@example.com";
  role = employee;
  active = true;
  avatar_url = none;
  permissions = some (station_read ∷ customer_read ∷ []);
}

navigation_for-IsOpened_example :
    All (λ x. is_opened (to_of x) helper ≡ true) (navigation_for helper defaults)
navigation_for-IsOpened_example = navigation_for-IsOpened helper defaults

closed : is_opened "/orders?page=2" helper ≡ false
unfolding is_opened has_capability
closed = refl
