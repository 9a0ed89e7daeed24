-- ===== src/Api/Client.antt =====
-- api/client.ts: the access token's refresh, and what becomes of a request that fails.
-- The cache of offline reads answers for a path what `cached` gives; a reply is the body, or a cause.
pub mod Laws
pub mod Start
mod Tests
use Prim.Native.String
use g_manager.Common.{
  ℕ, zero, suc, String, Bool, true, false, ◌&&◌, ◌||◌, not, Option, none, some, List, [], ◌∷◌,
  ◌===◌, ◌++◌, if◌then◌else◌, any, codes, begins, is_some,
}
use g_manager.Auth.Types.{AuthUser}
use g_manager.Auth.Features.{FlagValue, FeatureState, apply, reset}
use g_manager.Auth.Store.{AuthState, set_session, clear_session, finish_initialization}
use g_manager.Api.Http.{Cause, status_is, has_no_response}

-- `if (text)`: the text is there and not empty.
abbrev pub given : Option String → Option String
given none = none
given (some t) = if t === "" then none else some t

-- The answer to POST /auth/refresh.
pub data Refresh : Type 0 where
  renewed : (token : String) → AuthUser → Refresh
  refused : Cause → Refresh

-- What the refresh does to the session when it is answered, and what its promise gives.
unfoldable pub on_refresh : Refresh → AuthState → AuthState
on_refresh (renewed token user) s = set_session token user s
on_refresh (refused cause) s =
    if status_is 401 cause || status_is 403 cause then clear_session s else s

abbrev pub refreshed_token : Refresh → Option String
refreshed_token (renewed token user) = some token
refreshed_token (refused cause) = none

abbrev pub offline_read_paths : List String
offline_read_paths = "/catalog" ∷ "/working-hours" ∷ "/reports/definitions" ∷ []

unfoldable pub can_cache : String → Bool
can_cache url =
    any (λ path. url === path || begins (codes path ++ codes "?") (codes url)) offline_read_paths

pub record Request : Type 0 where
  pub url : String
  pub is_get : Bool
  pub auth_retry : Bool
  pub authorization : Option String

pub data Reply : Type 0 where
  body : String → Reply
  error : Cause → Reply

-- The request interceptor.
unfoldable pub authorized : AuthState → Request → Request
authorized s r = elim (given s.access_token) [
  | none ↦ r
  | some token ↦ record r { authorization = some token }
]

-- What the response interceptor answers: the body, a body from the cache, the same request once more,
-- or the error.
pub data Next : Type 0 where
  resolved stale : String → Next
  again : Request → Next
  rejected : Cause → Next

-- Whether the request carries the session's token.
abbrev pub same_token : Option String → Option String → Bool
same_token (some a) (some b) = a === b
same_token _ _ = false

-- The 401 branch. `refresh` is how a refresh ends if one is made here.
unfoldable pub on_unauthorized : Refresh → Cause → Request → AuthState → Next × AuthState
unfolding on_refresh
on_unauthorized refresh cause r s =
    if r.auth_retry
    then if same_token r.authorization s.access_token
      then (rejected cause, clear_session s)
      else (rejected cause, s)
    else (
      elim (given (refreshed_token refresh)) [
        | none ↦ rejected cause
        | some token ↦ again (record r { auth_retry = true; authorization = some token })
      ],
      on_refresh refresh s,
    )

-- `useAuthStore.getState().user?.id`
abbrev pub user_id : AuthState → Option String
user_id s = elim s.user [ none ↦ none | some user ↦ some user.id ]

unfoldable pub on_error :
    (cached : String → Option String) → Refresh → Cause → Request → AuthState → Next × AuthState
unfolding on_unauthorized
on_error cached refresh cause r s =
    let failed =
      if status_is 401 cause then on_unauthorized refresh cause r s else (rejected cause, s) in
    if has_no_response cause && (is_some (given (user_id s)) && (r.is_get && can_cache r.url))
    then elim (cached r.url) [ none ↦ failed | some value ↦ (stale value, s) ]
    else failed

unfoldable pub on_reply :
    (cached : String → Option String) → Refresh → Reply → Request → AuthState → Next × AuthState
unfolding on_error
on_reply cached refresh (body text) r s = (resolved text, s)
on_reply cached refresh (error cause) r s = on_error cached refresh cause r s

-- A request with all its repetitions: `reply i` and `refresh i` are what the server says to the i-th
-- attempt. The requests that were sent come last, the latest first. `none` means out of fuel.
pub record Exchange : Type 0 where
  pub outcome : Option Next
  pub session : AuthState
  pub sent : List Request

unfoldable pub perform :
    (cached : String → Option String) (reply : ℕ → Reply) (refresh : ℕ → Refresh)
    → ℕ
    → ℕ
    → Request
    → AuthState
    → List Request
    → Exchange
unfolding on_reply
perform cached reply refresh zero i r s sent = record { outcome = none; session = s; sent = sent }
perform cached reply refresh (suc fuel) i r s sent =
    let asked = authorized s r in
    let (next, s') = on_reply cached (refresh i) (reply i) asked s in
    elim next [
      | again r' ↦ perform cached reply refresh fuel (suc i) r' s' (asked ∷ sent)
      | other ↦ record { outcome = some other; session = s'; sent = asked ∷ sent }
    ]

abbrev pub bootstrap_request : Request
bootstrap_request = record {
  url = "/features/bootstrap";
  is_get = true;
  auth_retry = false;
  authorization = none;
}

-- `flags` reads the values from a body; it gives nothing where `apply` throws.
abbrev pub features_of : (flags : String → Option (List FlagValue)) → Option Next → FeatureState
features_of flags none = reset
features_of flags (some (again r)) = reset
features_of flags (some (rejected cause)) = reset
features_of flags (some (resolved text)) = elim (flags text) [ none ↦ reset | some v ↦ apply v ]
features_of flags (some (stale text)) = elim (flags text) [ none ↦ reset | some v ↦ apply v ]

abbrev pub with_features : (flags : String → Option (List FlagValue)) → Exchange → AuthState
with_features flags x = let s = x.session in record s { features = features_of flags x.outcome }

-- `initializeSession`: the first refresh, and GET /features/bootstrap with all that the interceptors do.
unfoldable pub initialize_session :
    (cached : String → Option String) (reply : ℕ → Reply) (refresh : ℕ → Refresh)
    (flags : String → Option (List FlagValue))
    → (first : Refresh) → AuthState
    → AuthState
unfolding on_refresh perform
initialize_session cached reply refresh flags first s =
    let t = on_refresh first s in
    finish_initialization (elim (given (refreshed_token first)) [
      | none ↦ t
      | some token ↦ with_features flags (perform cached reply refresh 2 0 bootstrap_request t [])
    ])
