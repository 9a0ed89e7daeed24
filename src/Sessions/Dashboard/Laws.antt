-- ===== src/Sessions/Dashboard/Laws.antt =====
-- What holds of the hook from its start on, and one revocation at a time.
use g_manager.Common.{
  String, Bool, true, false, not, ◌||◌, Option, none, some, List, [], ◌∷◌, ◌≡◌, refl, ap, ◌∙◌,
  arith, is_some, if◌then◌else◌,
}
use g_manager.Sessions.Dashboard.{
  SecurityEventInfo, answered, SessionInfo, Waiting, Phase, idle, revoking, revoking_all, reloading,
  Revocation, one, all_sessions, Dashboard, Event, mount, unmount, timer, refresh, history_done,
  revoke_all, acknowledged, sign_in, sessions_answer, events_answer, revoke, rejected, initial,
  current_actor, active, load, finished, settled, on_history, on_sessions, on_events, begin,
  on_acknowledged, on_rejected, step, run, awaiting_load, Answer, removed, signed_out,
}

abbrev pub is_idle : Phase → Bool
is_idle idle = true
is_idle _ = false

abbrev pub is_reloading : Phase → Bool
is_reloading reloading = true
is_reloading _ = false

-- `mutationInFlight` is set exactly while a revocation waits, and what waits for a load has one.
abbrev pub IsValid : Dashboard → Type 0
IsValid s =
    (s.mutation_in_flight ≡ not (is_idle s.phase))
    × ((not (is_reloading s.phase) || is_some s.loading_request) ≡ true)

if-IsValid : (b : Bool) (s t : Dashboard) → IsValid s → IsValid t → IsValid (if b then s else t)
if-IsValid true s t v w = v
if-IsValid false s t v w = w

module _ (actor : String) where
  load-IsValid : (s : Dashboard) → IsValid s → IsValid (load actor s)
  unfolding load
  load-IsValid s v = (ground arith, ground arith)

  finished-IsValid : (s : Dashboard) → IsValid (finished actor s)
  unfolding finished
  finished-IsValid s = (refl, refl)

  settled-phase :
      (p : Phase) (w : Waiting) (s : Dashboard)
      → s.phase ≡ p
      → IsValid s
      → IsValid (settled actor w s)
  unfolding settled finished
  settled-phase idle w s e v = (ground arith, ground arith)
  settled-phase revoking_all w s e v = (ground arith, ground arith)
  settled-phase reloading w s e v = (ground arith, ground arith)
  settled-phase (revoking x) w s e v = (ground arith, ground arith)

  settled-IsValid : (w : Waiting) (s : Dashboard) → IsValid s → IsValid (settled actor w s)
  settled-IsValid w s v = settled-phase s.phase w s refl v

  on_history-IsValid :
      (o : Option Waiting) (s : Dashboard) → IsValid s → IsValid (on_history actor o s)
  unfolding on_history
  on_history-IsValid none s v = v
  on_history-IsValid (some w) s v = settled-IsValid (record w { history = false }) s v

  on_sessions-IsValid :
      (o : Option Waiting) (a : Answer SessionInfo) (s : Dashboard)
      → IsValid s
      → IsValid (on_sessions actor o a s)
  unfolding on_sessions
  on_sessions-IsValid none a s v = v
  on_sessions-IsValid (some w) a s v =
      let t = record s {
        sessions = if active actor s then answered a s.sessions else s.sessions;
      } in
      if-IsValid w.sessions (settled actor (record w { sessions = false }) t) s
        (settled-IsValid (record w { sessions = false }) t v) v

  on_events-IsValid :
      (o : Option Waiting) (a : Answer SecurityEventInfo) (s : Dashboard)
      → IsValid s
      → IsValid (on_events actor o a s)
  unfolding on_events
  on_events-IsValid none a s v = v
  on_events-IsValid (some w) a s v =
      let t = record s { events = if active actor s then answered a s.events else s.events } in
      if-IsValid w.events (settled actor (record w { events = false }) t) s
        (settled-IsValid (record w { events = false }) t v) v

  load-in_flight : (s : Dashboard) → (load actor s).mutation_in_flight ≡ s.mutation_in_flight
  unfolding load
  load-in_flight s = ground arith

  awaiting_load-IsValid :
      (s : Dashboard) → s.mutation_in_flight ≡ true → IsValid (awaiting_load actor s)
  unfolding finished
  awaiting_load-IsValid s h = (ground arith, ground arith)

  on_acknowledged-IsValid :
      (p : Phase) (s : Dashboard) → s.phase ≡ p → IsValid s → IsValid (on_acknowledged actor p s)
  unfolding on_acknowledged
  on_acknowledged-IsValid (revoking x) s e v =
      let busy : s.mutation_in_flight ≡ true = v.0 ∙ ap (λ q. not (is_idle q)) e in
      if-IsValid (not (current_actor actor s)) (finished actor s) _ (finished-IsValid s) (
        if-IsValid x.current (finished actor (signed_out actor s)) _
          (finished-IsValid (signed_out actor s))
          (if-IsValid (not s.mounted) (finished actor s) _ (finished-IsValid s) (
            awaiting_load-IsValid (load actor (removed actor x s))
              (load-in_flight (removed actor x s) ∙ busy))))
  on_acknowledged-IsValid revoking_all s e v =
      if-IsValid (not (current_actor actor s)) (finished actor s) _ (finished-IsValid s)
        (finished-IsValid (signed_out actor s))
  on_acknowledged-IsValid idle s e v = v
  on_acknowledged-IsValid reloading s e v = v

  begin-IsValid :
      (r : Revocation) (pending : String) (p : Phase) (s : Dashboard)
      → is_idle p ≡ false
      → is_reloading p ≡ false
      → IsValid s
      → IsValid (begin actor r pending p s)
  unfolding begin
  begin-IsValid r pending p s i n v = (ground arith, ground arith)

  on_rejected-IsValid : (p : Phase) (s : Dashboard) → IsValid s → IsValid (on_rejected actor p s)
  unfolding on_rejected finished
  on_rejected-IsValid (revoking x) s v = (refl, refl)
  on_rejected-IsValid revoking_all s v = (refl, refl)
  on_rejected-IsValid idle s v = v
  on_rejected-IsValid reloading s v = v

  step-IsValid : (e : Event) (s : Dashboard) → IsValid s → IsValid (step actor e s)
  unfolding step
  step-IsValid mount s v = v
  step-IsValid unmount s v = v
  step-IsValid timer s v = load-IsValid s v
  step-IsValid refresh s v = if-IsValid s.mutation_in_flight s (load actor s) v (load-IsValid s v)
  step-IsValid (sign_in user) s v = v
  step-IsValid history_done s v = on_history-IsValid s.loading_request s v
  step-IsValid (sessions_answer a) s v = on_sessions-IsValid s.loading_request a s v
  step-IsValid (events_answer a) s v = on_events-IsValid s.loading_request a s v
  step-IsValid (revoke x) s v = begin-IsValid (one x.id) x.id (revoking x) s refl refl v
  step-IsValid revoke_all s v = begin-IsValid all_sessions "all" revoking_all s refl refl v
  step-IsValid acknowledged s v = on_acknowledged-IsValid s.phase s refl v
  step-IsValid (rejected cause) s v = on_rejected-IsValid s.phase s v

  run-IsValid : (events : List Event) (s : Dashboard) → IsValid s → IsValid (run actor events s)
  unfolding run
  run-IsValid [] s v = v
  run-IsValid (e ∷ rest) s v = run-IsValid rest (step actor e s) (step-IsValid e s v)

  -- Whatever happens to the hook from its start, `mutationInFlight` is set exactly while a revocation
  -- waits, and a revocation that waits for the lists has a load that is under way.
  pub run-start-IsValid :
      (events : List Event) (user : Option String) → IsValid (run actor events (initial user))
  run-start-IsValid events user = run-IsValid events (initial user) (refl, refl)

  -- In a valid state in which a revocation waits, another one changes nothing: it is not sent.
  step_busy :
      (s : Dashboard) (x : SessionInfo)
      → IsValid s
      → is_idle s.phase ≡ false
      → (step actor (revoke x) s ≡ s) × (step actor revoke_all s ≡ s)
  unfolding step begin
  step_busy s x v h =
      let busy : s.mutation_in_flight ≡ true = v.0 ∙ ap not h in (rw busy refl, rw busy refl)
