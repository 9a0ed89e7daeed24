-- ===== src/Sessions/Dashboard/Foreign.antt =====
-- After another user has signed in, answers and acknowledgements leave the page as it is.
use g_manager.Common.{
  String, Bool, true, false, not, ◌||◌, Option, none, some, ◌≡◌, refl, ap, arith, Bool-cases,
  is_some, inl, inr, if◌then◌else◌,
}
use g_manager.Sessions.Dashboard.{
  SessionInfo, SecurityEventInfo, Waiting, Phase, idle, revoking, revoking_all, reloading,
  Dashboard, Event, mount, unmount, timer, refresh, history_done, revoke_all, acknowledged, sign_in,
  sessions_answer, events_answer, revoke, rejected, current_actor, active, load, finished, settled,
  on_history, on_sessions, on_events, begin, on_acknowledged, on_rejected, step, Answer, Revocation,
  one, all_sessions,
}

-- The page shows the same, and no revocation was sent.
abbrev pub IsUntouched : Dashboard → Dashboard → Type 0
IsUntouched s t =
    (t.sessions ≡ s.sessions)
    × (t.events ≡ s.events)
    × (t.pending_id ≡ s.pending_id)
    × (t.sent ≡ s.sent)
    × (t.user ≡ s.user)

abbrev pub is_sign_in : Event → Bool
is_sign_in (sign_in user) = true
is_sign_in _ = false

module _ (actor : String) (s : Dashboard) (f : current_actor actor s ≡ false) where
  is_inactive : active actor s ≡ false
  is_inactive = ground arith

  same : IsUntouched s s
  same = (refl, refl, refl, refl, refl)

  if-IsUntouched :
      (b : Bool) (t u : Dashboard)
      → IsUntouched s t
      → IsUntouched s u
      → IsUntouched s (if b then t else u)
  if-IsUntouched true t u x y = x
  if-IsUntouched false t u x y = y

  then-IsUntouched :
      (b : Bool) (t u : Dashboard) → b ≡ true → IsUntouched s t → IsUntouched s (if b then t else u)
  then-IsUntouched true t u e x = x
  then-IsUntouched false t u e x = ground arith

  load_foreign : IsUntouched s (load actor s)
  unfolding load
  load_foreign = elim (Bool-cases (is_some s.loading_request)) [
    | inl e ↦ rw e same
    | inr e ↦ rw (e, is_inactive) same
  ]

  finished_foreign : IsUntouched s (finished actor s)
  unfolding finished
  finished_foreign = rw is_inactive same

  settled-phase_foreign :
      (p : Phase) (w : Waiting) → s.phase ≡ p → IsUntouched s (settled actor w s)
  unfolding settled finished
  settled-phase_foreign reloading w e =
      rw (e, is_inactive) (if-IsUntouched (w.history || (w.sessions || w.events)) _ _ same same)
  settled-phase_foreign idle w e =
      rw e (if-IsUntouched (w.history || (w.sessions || w.events)) _ _ same same)
  settled-phase_foreign revoking_all w e =
      rw e (if-IsUntouched (w.history || (w.sessions || w.events)) _ _ same same)
  settled-phase_foreign (revoking x) w e =
      rw e (if-IsUntouched (w.history || (w.sessions || w.events)) _ _ same same)

  settled_foreign : (w : Waiting) → IsUntouched s (settled actor w s)
  settled_foreign w = settled-phase_foreign s.phase w refl

  on_history_foreign : (o : Option Waiting) → IsUntouched s (on_history actor o s)
  unfolding on_history
  on_history_foreign none = same
  on_history_foreign (some w) = settled_foreign (record w { history = false })

  on_sessions_foreign :
      (o : Option Waiting) (a : Answer SessionInfo) → IsUntouched s (on_sessions actor o a s)
  unfolding on_sessions
  on_sessions_foreign none a = same
  on_sessions_foreign (some w) a = rw is_inactive (
      if-IsUntouched w.sessions (settled actor (record w { sessions = false }) s) s
        (settled_foreign (record w { sessions = false })) same)

  on_events_foreign :
      (o : Option Waiting) (a : Answer SecurityEventInfo) → IsUntouched s (on_events actor o a s)
  unfolding on_events
  on_events_foreign none a = same
  on_events_foreign (some w) a = rw is_inactive (
      if-IsUntouched w.events (settled actor (record w { events = false }) s) s
        (settled_foreign (record w { events = false })) same)

  on_acknowledged_foreign : (p : Phase) → IsUntouched s (on_acknowledged actor p s)
  unfolding on_acknowledged
  on_acknowledged_foreign (revoking x) =
      then-IsUntouched (not (current_actor actor s)) (finished actor s) _ (ap not f)
        finished_foreign
  on_acknowledged_foreign revoking_all =
      then-IsUntouched (not (current_actor actor s)) (finished actor s) _ (ap not f)
        finished_foreign
  on_acknowledged_foreign idle = same
  on_acknowledged_foreign reloading = same

  on_rejected_foreign : (p : Phase) → IsUntouched s (on_rejected actor p s)
  unfolding on_rejected
  on_rejected_foreign (revoking x) = finished_foreign
  on_rejected_foreign revoking_all = finished_foreign
  on_rejected_foreign idle = same
  on_rejected_foreign reloading = same

  begin_foreign : (r : Revocation) (pending : String) (p : Phase) → begin actor r pending p s ≡ s
  unfolding begin
  begin_foreign r pending p = ground arith

  -- While somebody else than the user of the page is signed in, or nobody, no event but another sign-in
  -- changes what the page shows or who is signed in, and no revocation is sent.
  pub step_foreign : (e : Event) → is_sign_in e ≡ false → IsUntouched s (step actor e s)
  unfolding step
  step_foreign mount h = same
  step_foreign unmount h = same
  step_foreign timer h = load_foreign
  step_foreign refresh h = if-IsUntouched s.mutation_in_flight s (load actor s) same load_foreign
  step_foreign (sign_in user) h = ground arith
  step_foreign history_done h = on_history_foreign s.loading_request
  step_foreign (sessions_answer a) h = on_sessions_foreign s.loading_request a
  step_foreign (events_answer a) h = on_events_foreign s.loading_request a
  step_foreign (revoke x) h = rw (begin_foreign (one x.id) x.id (revoking x)) same
  step_foreign revoke_all h = rw (begin_foreign all_sessions "all" revoking_all) same
  step_foreign acknowledged h = on_acknowledged_foreign s.phase
  step_foreign (rejected cause) h = on_rejected_foreign s.phase
