-- ===== src/Api/Client/Start.antt =====
-- Who is signed in after the start of the program.
use g_manager.Common.{
  ℕ, String, Bool, true, false, Option, none, some, List, [], ◌∷◌, ◌≡◌, inl, inr, refl, ap, sym,
  subst, ◌∙◌, arith, is_some, Bool-cases, ◌===◌, eq_iff, ◌||◌, not, ◌&&◌, if◌then◌else◌,
}
use g_manager.Auth.Types.{AuthUser}
use g_manager.Auth.Features.{FlagValue}
use g_manager.Auth.Store.{AuthState, set_session, clear_session, finish_initialization}
use g_manager.Api.Http.{Cause, http, status_is}
use g_manager.Api.Client.{
  given, Refresh, renewed, refused, refreshed_token, on_refresh, Request, Reply, body, error,
  Exchange, authorized, Next, again, on_unauthorized, on_error, on_reply, perform,
  bootstrap_request, initialize_session,
}
use g_manager.Api.Client.Laws.{
  IsFinal, answer, Next-cases, perform-again, perform-final, on_reply_again, on_reply_refused,
  authorized_renewed,
}

-- The session store is consistent: a token exactly when there is a user.
abbrev pub IsConsistent : AuthState → Type 0
IsConsistent s = is_some s.access_token ≡ is_some s.user

abbrev pub is_unauthorized : Reply → Bool
is_unauthorized (body text) = false
is_unauthorized (error cause) = status_is 401 cause

-- Who is signed in after a refresh that was refused.
abbrev pub user_after : Cause → Option AuthUser → Option AuthUser
user_after cause user = if status_is 401 cause || status_is 403 cause then none else user

-- After the request for the features, which the server answers with `one`, and with `two` if it is repeated.
abbrev pub user_served : (one two : Reply) → Refresh → Option AuthUser → Option AuthUser
user_served one two (renewed token user) before =
    if not (is_unauthorized one)
    then before
    else if not (token === "") && is_unauthorized two
    then none
    else some user
user_served one two (refused cause) before =
    if not (is_unauthorized one) then before else user_after cause before

abbrev pub user_at_start :
    (one two : Reply) (first second : Refresh) → Option AuthUser → Option AuthUser
user_at_start one two (renewed token user) second before =
    if token === "" then some user else user_served one two second (some user)
user_at_start one two (refused cause) second before = user_after cause before

module _ (cached : String → Option String) where
  once :
      (refresh : Refresh) (reply : Reply) (r : Request) (t : AuthState)
      → is_unauthorized reply ≡ false
      → (on_reply cached refresh reply r t).1 ≡ t
  unfolding on_reply on_error
  once refresh (body text) r t h = refl
  once refresh (error cause) r t h = ground arith

  -- A repeated request with the session's token.
  twice :
      (refresh : Refresh) (reply : Reply) (r : Request) (token : String) (t : AuthState)
      → r.auth_retry ≡ true
      → r.authorization ≡ some token
      → t.access_token ≡ some token
      → (on_reply cached refresh reply r t).1
        ≡ (if is_unauthorized reply then clear_session t else t)
  unfolding on_reply on_error on_unauthorized
  twice refresh (body text) r token t h a k = refl
  twice refresh (error (http (some x))) r token t h a k = ground (arith, eq_iff token token)
  twice refresh (error cause) r token t h a k = ground arith

  -- An answer other than 401 is final.
  ends_once :
      (refresh : Refresh) (reply : Reply) (r : Request) (t : AuthState)
      → is_unauthorized reply ≡ false
      → IsFinal (some (on_reply cached refresh reply r t).0)
  unfolding on_reply on_error
  ends_once refresh (body text) r t h = tt
  ends_once refresh (error cause) r t h = ground arith

  -- A 401 whose refresh gives no token.
  not_renewed :
      (refresh : Refresh) (reply : Reply) (r : Request) (t : AuthState)
      → is_unauthorized reply ≡ true
      → r.auth_retry ≡ false
      → given (refreshed_token refresh) ≡ none
      → IsFinal (some (on_reply cached refresh reply r t).0)
        × ((on_reply cached refresh reply r t).1 ≡ on_refresh refresh t)
  unfolding on_reply on_error on_unauthorized
  not_renewed refresh (body text) r t h f g = ground arith
  not_renewed refresh (error (http (some x))) r t h f g = rw (h, on_unauthorized, f, g) (tt, refl)
  not_renewed refresh (error cause) r t h f g = ground arith

  module _ (reply : ℕ → Reply) (refresh : ℕ → Refresh) where
    last :
        (r : Request) (t : AuthState) (sent : List Request)
        → r.auth_retry ≡ true
        → (perform cached reply refresh 1 1 r t sent).session
          ≡ (answer cached reply refresh 1 r t).1
    last r t sent h = elim (Next-cases (answer cached reply refresh 1 r t).0) [
      | inl (r', e) ↦
          let kept : (authorized t r).auth_retry ≡ r.auth_retry =
            unfold authorized in ground arith in
          cc (h, kept, (on_reply_again cached (refresh 1) (reply 1) (authorized t r) t r' e).0)
      | inr final ↦ rw (perform-final cached reply refresh 0 1 r t sent _ refl final) refl
    ]

    module _ (r : Request) (fresh : r.auth_retry ≡ false) (t : AuthState) where
      abbrev Served : AuthState → Type 0
      Served u = IsConsistent u × (u.user ≡ user_served (reply 0) (reply 1) (refresh 0) t.user)

      abbrev exchange : AuthState
      exchange = (perform cached reply refresh 2 0 r t []).session

      asked_fresh : (authorized t r).auth_retry ≡ false
      asked_fresh = unfold authorized in ground (arith, fresh)

      -- The first answer is the last.
      ends :
          IsFinal (some (answer cached reply refresh 0 r t).0)
          → exchange ≡ (answer cached reply refresh 0 r t).1
      ends final =
          ap (λ (x : Exchange). x.session)
            (perform-final cached reply refresh 1 0 r t [] (answer cached reply refresh 0 r t).0
              refl final)

      at_once : IsConsistent t → is_unauthorized (reply 0) ≡ false → Served exchange
      at_once k h =
          subst Served
            (sym (
              ends (ends_once (refresh 0) (reply 0) (authorized t r) t h)
              ∙ once (refresh 0) (reply 0) (authorized t r) t h))
            (k, ground arith)

      without_token :
          IsConsistent t
          → (x : Refresh) → refresh 0 ≡ x
          → is_unauthorized (reply 0) ≡ true
          → given (refreshed_token x) ≡ none
          → Served exchange
      unfolding on_refresh set_session clear_session
      without_token k (renewed token user) e h g =
          let known : given (refreshed_token (refresh 0)) ≡ none = rw e g in
          let (final, same) =
            not_renewed (refresh 0) (reply 0) (authorized t r) t h asked_fresh known in
          subst Served (sym (ends final ∙ same)) (rw e (refl, ground arith))
      without_token k (refused cause) e h g =
          let known : given (refreshed_token (refresh 0)) ≡ none = rw e g in
          let (final, same) =
            not_renewed (refresh 0) (reply 0) (authorized t r) t h asked_fresh known in
          subst Served (sym (ends final ∙ same)) (rw e (ground arith, ground arith))

      with_token :
          (token : String) (user : AuthUser) (x : Reply)
          → refresh 0 ≡ renewed token user
          → reply 0 ≡ x
          → is_unauthorized x ≡ true
          → (token === "") ≡ false
          → Served exchange
      unfolding set_session clear_session
      with_token token user (body text) e f h n = ground arith
      with_token token user (error cause) e f h n =
          let asked = authorized t r in
          let r' : Request = record asked { auth_retry = true; authorization = some token } in
          let t' = set_session token user t in
          let first : answer cached reply refresh 0 r t ≡ (again r', t') =
            rw (e, f) (on_reply_refused cached token user cause asked t n asked_fresh h) in
          let second : exchange ≡ (if is_unauthorized (reply 1) then clear_session t' else t') =
            ap (λ (y : Exchange). y.session)
              (perform-again cached reply refresh 1 0 r r' t []
                (ap (λ (p : Next × AuthState). p.0) first))
            ∙ ap (λ (u : AuthState). (perform cached reply refresh 1 1 r' u (asked ∷ [])).session)
                (ap (λ (p : Next × AuthState). p.1) first)
            ∙ last r' t' (asked ∷ []) refl
            ∙ twice (refresh 1) (reply 1) (authorized t' r') token t'
                (unfold authorized in ground arith) (authorized_renewed t r' token user n) refl in
          subst Served (sym second) (rw (e, f) (ground arith))

      after_exchange : IsConsistent t → Served exchange
      after_exchange k = elim (Bool-cases (is_unauthorized (reply 0))) [
        | inr fine ↦ at_once k fine
        | inl denied ↦ by_refresh (refresh 0) refl denied
      ]
        where
          by_refresh :
              (x : Refresh) → refresh 0 ≡ x → is_unauthorized (reply 0) ≡ true → Served exchange
          by_refresh (refused cause) e h = without_token k (refused cause) e h refl
          by_refresh (renewed token user) e h = elim (Bool-cases (token === "")) [
            | inl empty ↦ without_token k (renewed token user) e h (rw empty refl)
            | inr n ↦ with_token token user (reply 0) e refl h n
          ]

-- From a consistent session store, with any answers of the server and any cache: after the start the
-- program is not initializing, and a token is there exactly when a user is. The user is nobody after a
-- refresh that 401 or 403 refused, and the one who was there after any other failure of it. Otherwise it is
-- the one whom the refresh named, if the token is empty or the request for the features is not answered by
-- 401; and if it is, what a second refresh says, and nobody if its token is refused again.
pub initialize_session_lem :
    (cached : String → Option String) (reply : ℕ → Reply) (refresh : ℕ → Refresh)
    (flags : String → Option (List FlagValue)) (first : Refresh) (s : AuthState)
    → IsConsistent s
    → let t = initialize_session cached reply refresh flags first s in
      (t.is_initializing ≡ false)
      × IsConsistent t
      × (t.user ≡ user_at_start (reply 0) (reply 1) first (refresh 0) s.user)
unfolding initialize_session on_refresh set_session clear_session finish_initialization
initialize_session_lem cached reply refresh flags (refused cause) s h =
    (refl, ground arith, ground arith)
initialize_session_lem cached reply refresh flags (renewed token user) s h =
    elim (Bool-cases (token === "")) [
      | inl empty ↦ rw empty (refl, refl, refl)
      | inr n ↦
          let (c, u) =
            after_exchange cached reply refresh bootstrap_request refl (set_session token user s)
              refl in
          rw n (refl, c, u)
    ]
