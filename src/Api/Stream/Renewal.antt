-- ===== src/Api/Stream/Renewal.antt =====
-- What a pass of the stream does when the server refuses its token.
use g_manager.Common.{
  ℕ, suc, String, Bool, true, false, not, ◌&&◌, ◌||◌, Option, none, some, List, ◌∷◌, ◌==◌, ◌≡◌,
  refl, ◌∙◌, arith, is_some, eq_iff,
}
use g_manager.Auth.Store.{set_session, clear_session}
use g_manager.Api.Http.{Cause, status_is}
use g_manager.Api.Client.{given, same_token, Refresh, renewed, refused, on_refresh}
use g_manager.Api.Stream.{
  Fetched, response, failed, Round, Connection, delay_of, wait, caught, on_unauthorized,
  on_response, on_fetched, round, at_moment,
}
use g_manager.Api.Stream.Laws.{is_running, round_online}

abbrev pub is_unauthorized : Fetched → Bool
is_unauthorized (failed thrown) = false
is_unauthorized (response a) = a.status == 401

abbrev pub is_refused : Round → Bool
is_refused r = r.online && (not r.after_fetch.aborted && is_unauthorized r.fetched)

on_fetched_unauthorized :
    (used : Option String) (f : Fetched) (r : Round) (t : Connection)
    → is_unauthorized f ≡ true
    → t.aborted ≡ false
    → on_fetched used f r t ≡ on_unauthorized used r t
unfolding on_fetched on_response
on_fetched_unauthorized used (failed thrown) r t d a = ground arith
on_fetched_unauthorized used (response x) r t d a = ground arith

-- The pass is repeated at once with the token, and counts as the second 401 if it is refused.
abbrev pub Repeats : String → List ℕ → Connection → Type 0
Repeats token delays t =
    (t.over ≡ false)
    × (t.auth_retried ≡ true)
    × (t.delays ≡ delays)
    × (t.auth.access_token ≡ some token)

abbrev pub is_denied : Cause → Bool
is_denied cause = status_is 401 cause || status_is 403 cause

-- What the answer to the refresh leads to.
abbrev pub Follows : Refresh → (attempt : ℕ) (delays : List ℕ) → Connection → Type 0
Follows (renewed token user) attempt delays t =
    given (some token) ≡ some token → Repeats token delays t
Follows (refused cause) attempt delays t =
    (is_denied cause ≡ true → (t.over ≡ true) × (t.auth.access_token ≡ none))
    × (is_denied cause ≡ false
        → (t.over ≡ false)
          × (t.auth_retried ≡ false)
          × (t.delays ≡ delay_of (suc attempt) ∷ delays))

-- The token `used` was refused for the first time: it is renewed if it is the session's still, and else
-- the session's own is taken.
abbrev pub Renews : (used : Option String) → Round → Connection → Connection → Type 0
Renews used r s t =
    (same_token used r.after_fetch.auth.access_token ≡ true
      → Follows r.refresh s.attempt s.delays t)
    × ((token : String)
        → r.after_fetch.auth.access_token ≡ some token
        → given (some token) ≡ some token
        → same_token used (some token) ≡ false
        → Repeats token s.delays t)

on_unauthorized_second :
    (used : Option String) (r : Round) (s : Connection)
    → s.auth_retried ≡ true
    → let t = on_unauthorized used r s in
      (t.over ≡ true) × (t.auth.user ≡ none) × (t.auth.access_token ≡ none)
unfolding on_unauthorized clear_session
on_unauthorized_second used r s h = (ground arith, ground arith, ground arith)

same_given :
    (used now : Option String)
    → same_token used now ≡ true
    → is_some (given used) ≡ true
    → is_some (given now) ≡ true
same_given none now h g = ground arith
same_given (some a) none h g = ground arith
same_given (some a) (some b) h g = ground (arith, eq_iff a b)

on_unauthorized_same :
    (refresh : Refresh) (used : Option String) (r : Round) (s : Connection)
    → r.refresh ≡ refresh
    → s.over ≡ false
    → s.aborted ≡ false
    → s.auth_retried ≡ false
    → r.abort_in_refresh ≡ false
    → is_some (given s.auth.access_token) ≡ true
    → same_token used s.auth.access_token ≡ true
    → Follows refresh s.attempt s.delays (on_unauthorized used r s)
unfolding on_unauthorized caught wait on_refresh set_session clear_session
on_unauthorized_same (renewed token user) used r s e o a h q g m = λ k. ground arith
on_unauthorized_same (refused cause) used r s e o a h q g m = (λ d. ground arith, λ d. ground arith)

on_unauthorized_other :
    (token : String) (used : Option String) (r : Round) (s : Connection)
    → s.over ≡ false
    → s.aborted ≡ false
    → s.auth_retried ≡ false
    → s.auth.access_token ≡ some token
    → given (some token) ≡ some token
    → same_token used s.auth.access_token ≡ false
    → Repeats token s.delays (on_unauthorized used r s)
unfolding on_unauthorized
on_unauthorized_other token used r s o a h k g m = ground arith

-- A second 401 since the last connection ends the loop and signs the user out. After the first one, if the
-- refused token is the session's still and nobody stops the loop during the refresh: a token that is
-- renewed and not empty is tried at once, as the last try; a refresh that is refused by 401 or 403 ends the
-- loop and the session; and after any other failure of it the next pass follows after a delay. A token that
-- has taken the refused one's place meanwhile is tried at once without a refresh.
pub round_refused :
    (r : Round) (s : Connection)
    → is_running s ≡ true
    → is_refused r ≡ true
    → r.abort_in_refresh ≡ false
    → let t = round r s in
      (s.auth_retried ≡ true
        → (t.over ≡ true) × (t.auth.user ≡ none) × (t.auth.access_token ≡ none))
      × (s.auth_retried ≡ false → Renews s.auth.access_token r s t)
round_refused r s h d q =
    let used = s.auth.access_token in
    let t = at_moment r.after_fetch s in
    let e : round r s ≡ on_unauthorized used r t =
      round_online r s h (ground arith)
      ∙ on_fetched_unauthorized used r.fetched r t (ground arith) (ground arith) in
    (
      λ twice. rw e (on_unauthorized_second used r t twice),
      λ once. rw e (
        λ same.
            on_unauthorized_same r.refresh used r t refl (ground arith) (ground arith) once q
              (same_given used t.auth.access_token same (ground arith)) same,
        λ token k g other.
            on_unauthorized_other token used r t (ground arith) (ground arith) once k g
              (rw k other),
      ),
    )
