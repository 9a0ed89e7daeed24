-- ===== src/Api/Client/Tests.antt =====
-- A request whose token has run out, on a server that renews it once.
use g_manager.Common.{
  ℕ, zero, suc, ◌≤◌, String, true, false, Option, none, some, List, [], ◌≡◌, refl, length,
}
use g_manager.Auth.Types.{customer, AuthUser}
use g_manager.Auth.Store.{AuthState, signed_out, set_session, clear_session, finish_initialization}
use g_manager.Api.Http.{Cause, http}
use g_manager.Api.Client.{
  Refresh, renewed, refused, Request, Reply, body, error, rejected, perform, initialize_session,
  resolved, authorized,
}
use g_manager.Api.Client.Laws.{IsFinal, perform_total, perform_ends_session, head_token}
use g_manager.Api.Client.Start.{IsConsistent, user_at_start, initialize_session_lem}
use g_manager.Auth.Features.{FlagValue}

abbrev ana : AuthUser
ana = record {
  id = "u1";
  name = "Ana";
  email = "ana@example.com";
  role = customer;
  active = true;
  avatar_url = none;
  permissions = none;
}

abbrev unauthorized : Cause
unauthorized = http (some (record { status = 401; message = none; request_id = none }))

abbrev orders : Request
orders = record { url = "/orders"; is_get = true; auth_retry = false; authorization = none }

abbrev signed_in : AuthState
signed_in = set_session "old" ana signed_out

abbrev no_cache : String → Option String
no_cache path = none

abbrev renewing : ℕ → Refresh
renewing i = renewed "new" ana

-- Refused once, then answered.
abbrev answering : ℕ → Reply
answering zero = error unauthorized
answering (suc i) = body "[]"

abbrev refusing : ℕ → Reply
refusing i = error unauthorized

answered :
    (perform no_cache answering renewing 2 0 orders signed_in []).outcome ≡ some (resolved "[]")
unfolding perform authorized set_session
answered = refl

perform_total_example :
    IsFinal (perform no_cache answering renewing 2 0 orders signed_in []).outcome
    × (1 ≤ length (perform no_cache answering renewing 2 0 orders signed_in []).sent)
    × (length (perform no_cache answering renewing 2 0 orders signed_in []).sent ≤ 2)
perform_total_example = perform_total no_cache answering renewing 0 orders signed_in

perform_ends_session_example :
    ((perform no_cache refusing renewing 2 0 orders signed_in []).outcome
      ≡ some (rejected unauthorized))
    × ((perform no_cache refusing renewing 2 0 orders signed_in []).session.user ≡ none)
    × ((perform no_cache refusing renewing 2 0 orders signed_in []).session.access_token ≡ none)
    × (head_token (perform no_cache refusing renewing 2 0 orders signed_in []).sent ≡ some "new")
perform_ends_session_example =
    perform_ends_session no_cache renewing refusing 0 "new" ana unauthorized unauthorized orders
      signed_in refl refl refl refl refl refl refl

-- The request for the features is refused, and so is the second refresh.
abbrev expiring : ℕ → Refresh
expiring i = refused unauthorized

abbrev no_flags : String → Option (List FlagValue)
no_flags text = none

initialize_session_lem_example :
    let t =
      initialize_session no_cache answering expiring no_flags (renewed "new" ana) signed_out in
    (t.is_initializing ≡ false)
    × IsConsistent t
    × (t.user ≡ user_at_start (answering 0) (answering 1) (renewed "new" ana) (expiring 0) none)
initialize_session_lem_example =
    initialize_session_lem no_cache answering expiring no_flags (renewed "new" ana) signed_out refl

nobody_left :
    (initialize_session no_cache answering expiring no_flags (renewed "new" ana) signed_out).user
    ≡ none
unfolding initialize_session authorized set_session clear_session finish_initialization
nobody_left = refl
