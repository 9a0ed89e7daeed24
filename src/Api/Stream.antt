-- ===== src/Api/Stream.antt =====
-- api/sse.ts: `connectAuthenticatedStream`, the loop that keeps a stream open. A round of it is one pass
-- of the loop; what happens in a round comes with it, the signal and the session store at each point
-- where the loop waits included, since other requests may change them.
pub mod Laws
pub mod Renewal
mod Tests
use g_manager.Common.{
  ℕ, zero, suc, ◌+◌, ◌*◌, ◌^◌, min, String, Bool, true, false, not, ◌&&◌, ◌||◌, Option, none, some,
  List, [], ◌∷◌, ◌===◌, ◌==◌, if◌then◌else◌, is_some,
}
use g_manager.Auth.Store.{AuthState, clear_session}
use g_manager.Api.Client.{Refresh, given, refreshed_token, on_refresh, same_token}

-- What is thrown: StreamUnavailable, a TypeError, a DOMException with its name, a cancellation of
-- axios, anything else.
pub data Thrown : Type 0 where
  unavailable type_error cancelled other : Thrown
  dom : String → Thrown

-- `stream` says whether there is a body of the type text/event-stream.
pub record StreamResponse : Type 0 where
  pub status : ℕ
  pub ok : Bool
  pub stream : Bool

pub data Fetched : Type 0 where
  response : StreamResponse → Fetched
  failed : Thrown → Fetched

-- The signal and the store, when the loop goes on after it has waited.
pub record Moment : Type 0 where
  pub aborted : Bool
  pub auth : AuthState

pub record Round : Type 0 where
  pub online : Bool
  pub fetched : Fetched
  pub after_fetch : Moment
  pub refresh : Refresh
  pub abort_in_refresh : Bool
  pub consumed : Option Thrown
  pub after_consume : Moment
  pub after_delay : Moment

-- The loop: its signal, its variables, the calls of `onConnected` and `onRetry`, and the delays, the
-- latest first.
pub record Connection : Type 0 where
  pub over : Bool
  pub aborted : Bool
  pub auth : AuthState
  pub attempt : ℕ
  pub auth_retried : Bool
  pub connected : ℕ
  pub retried : ℕ
  pub delays : List ℕ

abbrev pub is_retryable : Thrown → Bool
is_retryable unavailable = true
is_retryable type_error = true
is_retryable (dom name) = name === "AbortError" || name === "NetworkError"
is_retryable cancelled = false
is_retryable other = false

abbrev pub at_moment : Moment → Connection → Connection
at_moment m s = record s { aborted = s.aborted || m.aborted; auth = m.auth }

abbrev pub ended : Connection → Connection
ended s = record s { over = true }

abbrev pub retry : Connection → Connection
retry s = record s { retried = suc s.retried }

unfoldable pub delay_of : ℕ → ℕ
delay_of attempt = min 30000 (1000 * 2 ^ min attempt 5)

-- The end of a pass that does not leave the loop.
unfoldable pub wait : Moment → Connection → Connection
unfolding delay_of
wait m s =
    if s.aborted
    then ended s
    else at_moment m
        (record (retry s) { attempt = suc s.attempt; delays = delay_of (suc s.attempt) ∷ s.delays })

-- The `catch` block, and what follows it.
unfoldable pub caught : Moment → Thrown → Connection → Connection
unfolding wait
caught m cancelled s = ended s
caught m thrown s = if s.aborted || not (is_retryable thrown) then ended s else wait m s

-- After a 401 for the token `used`, the second one in a row or the first.
unfoldable pub on_unauthorized : (used : Option String) → Round → Connection → Connection
unfolding caught
on_unauthorized used r s =
    if s.auth_retried
    then ended (retry (record s { auth = clear_session s.auth }))
    else let same = same_token used s.auth.access_token in
      let auth = if same then on_refresh r.refresh s.auth else s.auth in
      let refreshed = if same then refreshed_token r.refresh else s.auth.access_token in
      let t = record s { auth = auth; aborted = s.aborted || (same && r.abort_in_refresh) } in
      if t.aborted || not (is_some (given auth.access_token))
      then ended (retry t)
      else if is_some (given refreshed)
      then record t { auth_retried = true }
      else caught r.after_delay unavailable t

unfoldable pub on_stream : Round → Connection → Connection
unfolding wait caught
on_stream r s =
    let open_now = record s { attempt = 0; auth_retried = false; connected = suc s.connected } in
    let after = at_moment r.after_consume open_now in
    elim r.consumed [
      | none ↦ wait r.after_delay after
      | some thrown ↦ caught r.after_delay thrown after
    ]

unfoldable pub on_response :
    (used : Option String) → StreamResponse → Round → Connection → Connection
unfolding on_unauthorized on_stream caught
on_response used answer r s =
    if s.aborted
    then ended s
    else if answer.status == 403
    then ended (retry s)
    else if answer.status == 401
    then on_unauthorized used r s
    else if answer.ok && answer.stream
    then on_stream r s
    else caught r.after_delay unavailable s

unfoldable pub on_fetched : (used : Option String) → Fetched → Round → Connection → Connection
unfolding on_response caught
on_fetched used (response answer) r s = on_response used answer r s
on_fetched used (failed thrown) r s = caught r.after_delay thrown s

-- One pass, with the condition of the loop.
unfoldable pub round : Round → Connection → Connection
unfolding on_fetched caught
round r s =
    if s.over || (s.aborted || not (is_some (given s.auth.access_token)))
    then ended s
    else if r.online
    then on_fetched s.auth.access_token r.fetched r (at_moment r.after_fetch s)
    else caught r.after_delay unavailable s

unfoldable pub rounds : List Round → Connection → Connection
unfolding round
rounds [] s = s
rounds (r ∷ rest) s = rounds rest (round r s)
