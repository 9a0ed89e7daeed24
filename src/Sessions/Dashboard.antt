-- ===== src/Sessions/Dashboard.antt =====
-- sessions/useSessionDashboard.ts: the hook as a machine over events. `load` waits for three answers
-- together; a revocation waits for the server, and then for a load. An error text is the cause that it is
-- made from. Toasts are left out.
pub mod Laws
pub mod Foreign
pub mod SignOut
pub mod Tests
use g_manager.Common.{
  String, Bool, true, false, not, ◌&&◌, ◌||◌, Option, none, some, List, [], ◌∷◌, ◌===◌,
  if◌then◌else◌, filter, is_some,
}
use g_manager.Api.Http.{Cause}

pub record SessionInfo : Type 0 where
  pub id : String
  pub current : Bool

pub record SecurityEventInfo : Type 0 where
  pub type_name : String
  pub device_label : String
  pub occurred_at : String

pub record SessionResource (A : Type 0) : Type 0 where
  pub content : Option (List A)
  pub loading : Bool
  pub error : Option Cause

-- The answers that the promise of `load` still waits for.
pub record Waiting : Type 0 where
  pub history : Bool
  pub sessions : Bool
  pub events : Bool

-- Where `revoke` or `revokeAll` waits.
pub data Phase : Type 0 where
  idle revoking_all reloading : Phase
  revoking : SessionInfo → Phase

pub data Revocation : Type 0 where
  one : String → Revocation
  all_sessions : Revocation

-- The hook, with the id of the signed-in user, whether the page was left for /login, and the
-- revocations that were sent, the latest first.
pub record Dashboard : Type 0 where
  pub sessions : SessionResource SessionInfo
  pub events : SessionResource SecurityEventInfo
  pub pending_id : Option String
  pub loading_request : Option Waiting
  pub mutation_in_flight : Bool
  pub mounted : Bool
  pub user : Option String
  pub at_login : Bool
  pub phase : Phase
  pub sent : List Revocation

pub data Answer (A : Type 0) : Type 0 where
  success : List A → Answer A
  failed : Cause → Answer A

pub data Event : Type 0 where
  mount unmount timer refresh history_done revoke_all acknowledged : Event
  sign_in : Option String → Event
  sessions_answer : Answer SessionInfo → Event
  events_answer : Answer SecurityEventInfo → Event
  revoke : SessionInfo → Event
  rejected : Cause → Event

abbrev pub first_load : {A : Type 0} → SessionResource A
first_load = record { content = none; loading = true; error = none }

abbrev pub initial : Option String → Dashboard
initial user = record {
  sessions = first_load;
  events = first_load;
  pending_id = none;
  loading_request = none;
  mutation_in_flight = false;
  mounted = false;
  user = user;
  at_login = false;
  phase = idle;
  sent = [];
}

abbrev pub is_user : String → Option String → Bool
is_user actor none = false
is_user actor (some id) = id === actor

abbrev pub started : {A : Type 0} → SessionResource A → SessionResource A
started r = record r { loading = true; error = none }

abbrev pub answered : {A : Type 0} → Answer A → SessionResource A → SessionResource A
answered (success content) r = record { content = some content; loading = false; error = none }
answered (failed cause) r = record r { loading = false; error = some cause }

module _ (actor : String) where
  abbrev pub current_actor : Dashboard → Bool
  current_actor s = is_user actor s.user

  abbrev pub active : Dashboard → Bool
  active s = s.mounted && current_actor s

  unfoldable pub load : Dashboard → Dashboard
  load s = if is_some s.loading_request || not (active s) then s else record s {
    sessions = started s.sessions;
    events = started s.events;
    loading_request = some (record { history = true; sessions = true; events = true });
  }

  -- The `finally` block of a revocation.
  unfoldable pub finished : Dashboard → Dashboard
  finished s = record s {
    mutation_in_flight = false;
    phase = idle;
    pending_id = if active s then none else s.pending_id;
  }

  -- What waits for the load goes on when it has ended.
  abbrev pub resumed : Phase → Dashboard → Dashboard
  resumed reloading s = finished s
  resumed _ s = s

  -- The load ends with its last answer.
  unfoldable pub settled : Waiting → Dashboard → Dashboard
  unfolding finished
  settled w s =
      if w.history || (w.sessions || w.events)
      then record s { loading_request = some w }
      else resumed s.phase (record s { loading_request = none })

  unfoldable pub on_history : Option Waiting → Dashboard → Dashboard
  unfolding settled
  on_history none s = s
  on_history (some w) s = settled (record w { history = false }) s

  unfoldable pub on_sessions : Option Waiting → Answer SessionInfo → Dashboard → Dashboard
  unfolding settled
  on_sessions none a s = s
  on_sessions (some w) a s =
      if w.sessions
      then settled (record w { sessions = false })
          (record s { sessions = if active s then answered a s.sessions else s.sessions })
      else s

  unfoldable pub on_events : Option Waiting → Answer SecurityEventInfo → Dashboard → Dashboard
  unfolding settled
  on_events none a s = s
  on_events (some w) a s =
      if w.events
      then settled (record w { events = false })
          (record s { events = if active s then answered a s.events else s.events })
      else s

  -- A revocation that may not begin throws, and changes nothing.
  unfoldable pub begin : Revocation → String → Phase → Dashboard → Dashboard
  begin request pending phase s =
      if s.mutation_in_flight || (is_some s.loading_request || not (current_actor s))
      then s
      else record s {
        mutation_in_flight = true;
        pending_id = some pending;
        phase = phase;
        sent = request ∷ s.sent;
      }

  -- `clearSession` and the way to the login page.
  abbrev pub signed_out : Dashboard → Dashboard
  signed_out s = record s { user = none; at_login = true }

  abbrev pub without : String → Option (List SessionInfo) → Option (List SessionInfo)
  without id none = none
  without id (some content) = some (filter (λ value. not (value.id === id)) content)

  -- `await load()`
  abbrev pub awaiting_load : Dashboard → Dashboard
  awaiting_load s = if is_some s.loading_request then record s { phase = reloading } else finished s

  abbrev pub removed : SessionInfo → Dashboard → Dashboard
  removed session s =
      let r = s.sessions in
      record s { sessions = record r { content = without session.id r.content } }

  unfoldable pub on_acknowledged : Phase → Dashboard → Dashboard
  unfolding load finished
  on_acknowledged (revoking session) s =
      if not (current_actor s)
      then finished s
      else if session.current
      then finished (signed_out s)
      else if not s.mounted
      then finished s
      else awaiting_load (load (removed session s))
  on_acknowledged revoking_all s =
      if not (current_actor s) then finished s else finished (signed_out s)
  on_acknowledged _ s = s

  unfoldable pub on_rejected : Phase → Dashboard → Dashboard
  unfolding finished
  on_rejected (revoking session) s = finished s
  on_rejected revoking_all s = finished s
  on_rejected _ s = s

  unfoldable pub step : Event → Dashboard → Dashboard
  unfolding load on_history on_sessions on_events begin on_acknowledged on_rejected
  step mount s = record s { mounted = true }
  step unmount s = record s { mounted = false }
  step timer s = load s
  step refresh s = if s.mutation_in_flight then s else load s
  step (sign_in user) s = record s { user = user }
  step history_done s = on_history s.loading_request s
  step (sessions_answer a) s = on_sessions s.loading_request a s
  step (events_answer a) s = on_events s.loading_request a s
  step (revoke session) s = begin (one session.id) session.id (revoking session) s
  step revoke_all s = begin all_sessions "all" revoking_all s
  step acknowledged s = on_acknowledged s.phase s
  step (rejected cause) s = on_rejected s.phase s

  unfoldable pub run : List Event → Dashboard → Dashboard
  unfolding step
  run [] s = s
  run (e ∷ rest) s = run rest (step e s)
