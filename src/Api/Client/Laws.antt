-- ===== src/Api/Client/Laws.antt =====
-- A request is repeated at most once, and how a session ends.
use g_manager.Common.{
  ℕ, suc, ◌≤◌, String, true, false, Option, none, some, List, [], ◌∷◌, ◌≡◌, ◌⊎◌, inl, inr, refl, ap,
  arith, length, ◌===◌, eq_iff,
}
use g_manager.Auth.Types.{AuthUser}
use g_manager.Auth.Store.{AuthState, set_session, clear_session}
use g_manager.Api.Http.{Cause, http, status_is}
use g_manager.Api.Client.{
  Refresh, renewed, on_refresh, Request, Reply, body, error, authorized, Next, resolved, stale,
  again, rejected, on_unauthorized, on_error, on_reply, perform,
}

pub on_reply_again :
    (cached : String → Option String) (refresh : Refresh) (reply : Reply) (r : Request)
    (s : AuthState) (r' : Request)
    → (on_reply cached refresh reply r s).0 ≡ again r'
    → (r.auth_retry ≡ false) × (r'.auth_retry ≡ true)
unfolding on_reply on_error on_unauthorized
on_reply_again cached refresh (body text) r s r' h = ground arith
on_reply_again cached refresh (error cause) r s r' h = ground arith

-- An answer that is final.
abbrev pub IsFinal : Option Next → Type 0
IsFinal none = ⊥
IsFinal (some (again r)) = ⊥
IsFinal (some _) = Unit

pub Next-cases : (n : Next) → ((r : Request) × (n ≡ again r)) ⊎ IsFinal (some n)
Next-cases (again r) = inl (r, refl)
Next-cases (resolved t) = inr tt
Next-cases (stale t) = inr tt
Next-cases (rejected c) = inr tt

module _ (cached : String → Option String) (reply : ℕ → Reply) (refresh : ℕ → Refresh) where
  abbrev pub answer : ℕ → Request → AuthState → Next × AuthState
  answer i r s = on_reply cached (refresh i) (reply i) (authorized s r) s

  pub perform-again :
      (fuel i : ℕ) (r r' : Request) (s : AuthState) (sent : List Request)
      → (answer i r s).0 ≡ again r'
      → perform cached reply refresh (suc fuel) i r s sent
        ≡ perform cached reply refresh fuel (suc i) r' (answer i r s).1 (authorized s r ∷ sent)
  perform-again fuel i r r' s sent h = unfold perform in rw (h, perform)

  pub perform-final :
      (fuel i : ℕ) (r : Request) (s : AuthState) (sent : List Request) (n : Next)
      → (answer i r s).0 ≡ n
      → IsFinal (some n)
      → perform cached reply refresh (suc fuel) i r s sent
        ≡ record { outcome = some n; session = (answer i r s).1; sent = authorized s r ∷ sent }
  unfolding perform
  perform-final fuel i r s sent (again r') h f = absurd f
  perform-final fuel i r s sent (resolved t) h f = rw (h, perform)
  perform-final fuel i r s sent (stale t) h f = rw (h, perform)
  perform-final fuel i r s sent (rejected c) h f = rw (h, perform)

  perform_retried :
      (fuel i : ℕ) (r : Request) (s : AuthState) (sent : List Request)
      → r.auth_retry ≡ true
      → let x = perform cached reply refresh (suc fuel) i r s sent in
        IsFinal x.outcome × (length x.sent ≡ suc (length sent))
  perform_retried fuel i r s sent h = elim (Next-cases (answer i r s).0) [
    | inl (r', e) ↦
        let kept : (authorized s r).auth_retry ≡ r.auth_retry = unfold authorized in ground arith in
        cc (h, kept, (on_reply_again cached (refresh i) (reply i) (authorized s r) s r' e).0)
    | inr final ↦ rw (perform-final fuel i r s sent (answer i r s).0 refl final) (final, refl)
  ]

  -- Two attempts are enough for every request: it ends with a body, a body from the cache or an error,
  -- and was sent once or twice.
  pub perform_total :
      (fuel : ℕ) (r : Request) (s : AuthState)
      → let x = perform cached reply refresh (suc (suc fuel)) 0 r s [] in
        IsFinal x.outcome × (1 ≤ length x.sent) × (length x.sent ≤ 2)
  perform_total fuel r s = elim (Next-cases (answer 0 r s).0) [
    | inl (r', e) ↦
        let flagged = (on_reply_again cached (refresh 0) (reply 0) (authorized s r) s r' e).1 in
        let last = perform_retried fuel 1 r' (answer 0 r s).1 (authorized s r ∷ []) flagged in
        rw (perform-again (suc fuel) 0 r r' s [] e)
          (last.0, omega (arith, last.1), omega (arith, last.1))
    | inr final ↦
        rw (perform-final (suc fuel) 0 r s [] (answer 0 r s).0 refl final)
          (final, omega arith, omega arith)
  ]

pub on_reply_refused :
    (cached : String → Option String) (token : String) (user : AuthUser) (cause : Cause)
    (r : Request) (s : AuthState)
    → (token === "") ≡ false
    → r.auth_retry ≡ false
    → status_is 401 cause ≡ true
    → on_reply cached (renewed token user) (error cause) r s ≡ (
      again (record r { auth_retry = true; authorization = some token }),
      set_session token user s,
    )
unfolding on_reply on_error on_unauthorized on_refresh
on_reply_refused cached token user (http (some x)) r s n fresh u = ground arith
on_reply_refused cached token user cause r s n fresh u = ground arith

on_reply_ends :
    (cached : String → Option String) (refresh : Refresh) (token : String) (cause : Cause)
    (r : Request) (s : AuthState)
    → r.auth_retry ≡ true
    → r.authorization ≡ some token
    → s.access_token ≡ some token
    → status_is 401 cause ≡ true
    → on_reply cached refresh (error cause) r s ≡ (rejected cause, clear_session s)
unfolding on_reply on_error on_unauthorized
on_reply_ends cached refresh token (http (some x)) r s retried a b u =
    ground (arith, eq_iff token token)
on_reply_ends cached refresh token cause r s retried a b u = ground arith

pub authorized_renewed :
    (s : AuthState) (r : Request) (token : String) (user : AuthUser)
    → (token === "") ≡ false
    → (authorized (set_session token user s) r).authorization ≡ some token
unfolding authorized set_session
authorized_renewed s r token user n = ground arith

abbrev pub head_token : List Request → Option String
head_token [] = none
head_token (r ∷ rs) = r.authorization

-- When a request that was not repeated yet is answered by 401, the token is renewed by one that is not
-- empty, and the repeated request is answered by 401 again, the request is rejected with that error, the
-- repetition carried the new token, and the session holds neither user nor token.
pub perform_ends_session :
    (cached : String → Option String) (refresh : ℕ → Refresh) (reply : ℕ → Reply) (fuel : ℕ)
    (token : String) (user : AuthUser) (first second : Cause) (r : Request) (s : AuthState)
    → (token === "") ≡ false
    → r.auth_retry ≡ false
    → reply 0 ≡ error first
    → reply 1 ≡ error second
    → status_is 401 first ≡ true
    → status_is 401 second ≡ true
    → refresh 0 ≡ renewed token user
    → let x = perform cached reply refresh (suc (suc fuel)) 0 r s [] in
      (x.outcome ≡ some (rejected second))
      × (x.session.user ≡ none)
      × (x.session.access_token ≡ none)
      × (head_token x.sent ≡ some token)
perform_ends_session cached refresh reply fuel token user first second r s n fresh r0 r1 u0 u1
      new0 =
    let asked = authorized s r in
    let r' : Request = record asked { auth_retry = true; authorization = some token } in
    let s' = set_session token user s in
    let one : on_reply cached (refresh 0) (reply 0) asked s ≡ (again r', s') =
      rw (r0, new0)
        (on_reply_refused cached token user first asked s n (unfold authorized in ground arith)
          u0) in
    let two : on_reply cached (refresh 1) (reply 1) (authorized s' r') s'
        ≡ (rejected second, clear_session s') =
      rw r1 (
        on_reply_ends cached (refresh 1) token second (authorized s' r') s'
          (unfold authorized in ground arith) (unfold authorized set_session in ground arith)
          (unfold set_session in refl) u1) in
    rw
      (perform-again cached reply refresh (suc fuel) 0 r r' s []
        (ap (λ (p : Next × AuthState). p.0) one))
      (rw (ap (λ (p : Next × AuthState). p.1) one) (
        rw
          (perform-final cached reply refresh fuel 1 r' s' (asked ∷ []) (rejected second)
            (ap (λ (p : Next × AuthState). p.0) two) tt)
          (rw (ap (λ (p : Next × AuthState). p.1) two) (
            refl,
            unfold clear_session in refl,
            unfold clear_session in refl,
            authorized_renewed s r' token user n,
          ))))
