-- ===== src/Api/Stream/Tests.antt =====
-- The stream through an outage of two passes, and a token that the server refuses.
use g_manager.Common.{ℕ, true, false, none, some, List, [], ◌∷◌, ◌++◌, ◌≡◌, refl, All, length}
use g_manager.Auth.Types.{customer, AuthUser}
use g_manager.Auth.Store.{AuthState, signed_out, set_session, clear_session}
use g_manager.Api.Client.{renewed, on_refresh}
use g_manager.Api.Stream.{type_error, response, failed, Moment, Round, Connection, round, rounds}
use g_manager.Api.Stream.Laws.{IsDelay, is_running, rounds_reconnect}
use g_manager.Api.Stream.Renewal.{Renews, round_refused}

abbrev iva : AuthUser
iva = record {
  id = "u2";
  name = "Iva";
  email = "iva@example.com";
  role = customer;
  active = true;
  avatar_url = none;
  permissions = none;
}

abbrev session : AuthState
session = record signed_out { user = some iva; access_token = some "token" }

abbrev wanted : Moment
wanted = record { aborted = false; auth = session }

abbrev opening : Connection
opening = record {
  over = false;
  aborted = false;
  auth = session;
  attempt = 0;
  auth_retried = false;
  connected = 0;
  retried = 0;
  delays = [];
}

abbrev offline : Round
offline = record {
  online = false;
  fetched = failed type_error;
  after_fetch = wanted;
  refresh = renewed "next" iva;
  abort_in_refresh = false;
  consumed = none;
  after_consume = wanted;
  after_delay = wanted;
}

abbrev unreachable : Round
unreachable = record offline { online = true }

abbrev streaming : Round
streaming = record unreachable {
  fetched = response (record { status = 200; ok = true; stream = true });
}

abbrev unauthorized : Round
unauthorized = record unreachable {
  fetched = response (record { status = 401; ok = false; stream = false });
}

waited : (rounds (offline ∷ unreachable ∷ []) opening).delays ≡ 4000 ∷ 2000 ∷ []
unfolding rounds
waited = refl

renewed_once : (rounds (unauthorized ∷ unauthorized ∷ []) opening).auth.user ≡ none
unfolding rounds on_refresh set_session clear_session
renewed_once = refl

rounds_reconnect_example :
    let t = rounds (offline ∷ unreachable ∷ []) opening in
    (is_running t ≡ true)
    × ((ds : List ℕ) × (t.delays ≡ ds ++ []) × (length ds ≡ 2) × All IsDelay ds)
    × ((rounds (offline ∷ unreachable ∷ streaming ∷ []) opening).connected ≡ 1)
rounds_reconnect_example =
    rounds_reconnect (offline ∷ unreachable ∷ []) streaming opening refl (refl, (refl, tt)) refl

round_refused_example :
    let t = round unauthorized opening in
    (opening.auth_retried ≡ true
      → (t.over ≡ true) × (t.auth.user ≡ none) × (t.auth.access_token ≡ none))
    × (opening.auth_retried ≡ false → Renews (some "token") unauthorized opening t)
round_refused_example = round_refused unauthorized opening refl refl refl
