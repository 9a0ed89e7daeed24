-- ===== src/Sessions/Dashboard/SignOut.antt =====
-- When the page signs its user out.
use g_manager.Common.{String, true, false, Option, none, ◌≡◌, ◌⊎◌, refl, ◌↔◌, arith}
use g_manager.Sessions.Dashboard.{
  SecurityEventInfo, SessionInfo, Waiting, Phase, idle, revoking, revoking_all, reloading,
  Dashboard, Event, mount, unmount, timer, refresh, history_done, revoke_all, acknowledged, sign_in,
  sessions_answer, events_answer, revoke, rejected, Answer, current_actor, load, finished, settled,
  on_history, on_sessions, on_events, begin, on_acknowledged, on_rejected, step,
}

module _ (actor : String) where
  -- The server has revoked the own session of the user who is signed in still, or all of them.
  abbrev pub SignsOut : Event → Dashboard → Type 0
  SignsOut acknowledged s =
      (current_actor actor s ≡ true)
      × ((s.phase ≡ revoking_all)
          ⊎ ((x : SessionInfo) × (s.phase ≡ revoking x) × (x.current ≡ true)))
  SignsOut _ s = ⊥

  load_at_login : (s : Dashboard) → (load actor s).at_login ≡ s.at_login
  unfolding load
  load_at_login s = ground arith

  on_history_at_login :
      (o : Option Waiting) (s : Dashboard) → (on_history actor o s).at_login ≡ s.at_login
  unfolding on_history settled finished
  on_history_at_login o s = ground arith

  on_sessions_at_login :
      (o : Option Waiting) (a : Answer SessionInfo) (s : Dashboard)
      → (on_sessions actor o a s).at_login ≡ s.at_login
  unfolding on_sessions settled finished
  on_sessions_at_login o a s = ground arith

  on_events_at_login :
      (o : Option Waiting) (a : Answer SecurityEventInfo) (s : Dashboard)
      → (on_events actor o a s).at_login ≡ s.at_login
  unfolding on_events settled finished
  on_events_at_login o a s = ground arith

  abbrev Leaves : Dashboard → Type 0
  Leaves t = (t.user ≡ none) × (t.phase ≡ idle) × (t.mutation_in_flight ≡ false)

  on_acknowledged-SignsOut :
      (p : Phase) (s : Dashboard)
      → s.phase ≡ p
      → s.at_login ≡ false
      → let t = on_acknowledged actor p s in
        ((t.at_login ≡ true) ↔ SignsOut acknowledged s) × ((t.at_login ≡ true) → Leaves t)
  unfolding on_acknowledged finished load
  on_acknowledged-SignsOut idle s e h = ground arith
  on_acknowledged-SignsOut reloading s e h = ground arith
  on_acknowledged-SignsOut revoking_all s e h = ground arith
  on_acknowledged-SignsOut (revoking x) s e h = ground arith

  stays :
      (s t : Dashboard)
      → s.at_login ≡ false
      → t.at_login ≡ s.at_login
      → ((t.at_login ≡ true) ↔ ⊥) × ((t.at_login ≡ true) → Leaves t)
  stays s t h e = ground arith

  -- On a page that was not left for the login page: whatever happens next, the page goes there exactly when
  -- the server acknowledges the revocation of the own session, or of all of them, to the user who is signed
  -- in still; and then the user is signed out, and no revocation waits.
  pub step-SignsOut :
      (e : Event) (s : Dashboard)
      → s.at_login ≡ false
      → let t = step actor e s in
        ((t.at_login ≡ true) ↔ SignsOut e s)
        × ((t.at_login ≡ true)
            → (t.user ≡ none) × (t.phase ≡ idle) × (t.mutation_in_flight ≡ false))
  unfolding step
  step-SignsOut mount s h = stays s (step actor mount s) h refl
  step-SignsOut unmount s h = stays s (step actor unmount s) h refl
  step-SignsOut timer s h = stays s (step actor timer s) h (load_at_login s)
  step-SignsOut refresh s h = stays s (step actor refresh s) h (ground (arith, load_at_login s))
  step-SignsOut (sign_in user) s h = stays s (step actor (sign_in user) s) h refl
  step-SignsOut history_done s h =
      stays s (step actor history_done s) h (on_history_at_login s.loading_request s)
  step-SignsOut (sessions_answer a) s h =
      stays s (step actor (sessions_answer a) s) h (on_sessions_at_login s.loading_request a s)
  step-SignsOut (events_answer a) s h =
      stays s (step actor (events_answer a) s) h (on_events_at_login s.loading_request a s)
  step-SignsOut (revoke x) s h = stays s (step actor (revoke x) s) h (unfold begin in ground arith)
  step-SignsOut revoke_all s h = stays s (step actor revoke_all s) h (unfold begin in ground arith)
  step-SignsOut acknowledged s h = on_acknowledged-SignsOut s.phase s refl h
  step-SignsOut (rejected cause) s h =
      stays s (step actor (rejected cause) s) h (unfold on_rejected finished in ground arith)
