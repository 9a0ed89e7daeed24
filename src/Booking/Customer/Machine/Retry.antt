-- ===== src/Booking/Customer/Machine/Retry.antt =====
-- A booking whose outcome is unknown is sent again as it was, under its key.
use g_manager.Common.{
  String, Bool, true, false, ◌&&◌, ◌||◌, not, some, List, [], ◌∷◌, ◌++◌, ◌≡◌, refl, subst, sym, ◌∙◌,
  ap, arith, both_branches, each_branch, impossible, All,
}
use g_manager.Api.Http.{Cause}
use g_manager.Api.Client.{given}
use g_manager.Api.Idempotency.{begin, failed, retain_for_retry, pending_key, is_conflict_response}
use g_manager.Booking.Types.{ReservationCreationRequest}
use g_manager.Booking.Customer.{Platform, idle, sending, Booking, Context}
use g_manager.Booking.Customer.Choice.{can_submit}
use g_manager.Booking.Customer.Steps.{Step, send, create, on_not_created, is_frozen, forgotten}
use g_manager.Booking.Customer.Machine.{
  Event, edit, choose, reset, submit, created, not_created, notified, refetched, join, joined,
  times, not_joined, step, settle, run, rebind, choose_slot,
}
use g_manager.Booking.Customer.Machine.Laws.{join_in_flight}

abbrev pub is_quiet : Event → Bool
is_quiet (submit uuid) = false
is_quiet _ = true

not_refused : (a f i : Bool) → f ≡ true → i ≡ false → ((not a && not f) || i) ≡ false
not_refused a f i h k = ground arith

second_false : (a b : Bool) → (a && not b) ≡ true → b ≡ false
second_false a b h = ground arith

forgotten-frozen : (b : Booking) → is_frozen b ≡ true → forgotten b ≡ b
unfolding pending_key
forgotten-frozen b h = rw h refl

module _ (request : ReservationCreationRequest) (key : String) where
  -- The request is kept with its key, and nothing is under way.
  abbrev IsHeld : Booking → Type 0
  IsHeld b =
      (b.phase ≡ idle)
      × (b.in_flight ≡ false)
      × (b.pending ≡ some request)
      × (b.keys.key ≡ some key)

  abbrev IsQuiet : Step → Type 0
  IsQuiet s = IsHeld s.0 × (s.1 ≡ [])

  is_frozen-IsHeld : (b : Booking) → given (some key) ≡ some key → IsHeld b → is_frozen b ≡ true
  unfolding pending_key
  is_frozen-IsHeld b g h = rw (h.3, g) refl

  settle-idle : (event : Event) (b : Booking) → settle event idle b ≡ (b, [])
  unfolding settle
  settle-idle event b = ground arith

  settle-IsQuiet : (event : Event) (b : Booking) → IsHeld b → IsQuiet (settle event b.phase b)
  settle-IsQuiet event b h =
      subst (λ phase. IsQuiet (settle event phase b)) (sym h.0)
        (subst IsQuiet (sym (settle-idle event b)) (h, refl))

  step-IsQuiet :
      (p : Platform) (c : Context) (event : Event) (b : Booking)
      → given (some key) ≡ some key
      → is_quiet event ≡ true
      → IsHeld b
      → IsQuiet (step p c event b)
  unfolding step rebind choose_slot
  step-IsQuiet p c (edit fields) b g q h = (h, refl)
  step-IsQuiet p c (choose slot) b g q h = (h, refl)
  step-IsQuiet p c (reset true) b g q h = (h, refl)
  step-IsQuiet p c (reset false) b g q h = (h, refl)
  step-IsQuiet p c times b g q h = (both_branches IsHeld _ b _ h h, refl)
  step-IsQuiet p c (submit uuid) b g q h = ground arith
  step-IsQuiet p c join b g q h =
      let frozen = is_frozen-IsHeld b g h in
      subst IsQuiet (sym (join_in_flight p c b (ground (arith, frozen)))) (h, refl)
  step-IsQuiet p c (created ids) b g q h = settle-IsQuiet (created ids) b h
  step-IsQuiet p c (not_created cause) b g q h = settle-IsQuiet (not_created cause) b h
  step-IsQuiet p c (notified ok) b g q h = settle-IsQuiet (notified ok) b h
  step-IsQuiet p c refetched b g q h = settle-IsQuiet refetched b h
  step-IsQuiet p c joined b g q h = settle-IsQuiet joined b h
  step-IsQuiet p c (not_joined cause) b g q h = settle-IsQuiet (not_joined cause) b h

  create-IsHeld :
      (p : Platform) (c : Context) (uuid : String) (b : Booking)
      → given (some key) ≡ some key
      → IsHeld b
      → (create p c uuid b).1 ≡ send request key ∷ []
  unfolding create begin
  create-IsHeld p c uuid b g h =
      let refused = not (can_submit p c b.fields) && not (is_frozen b) in
      let frozen = is_frozen-IsHeld b g h in
      each_branch (λ (s : Step). s.1 ≡ send request key ∷ []) (refused || b.in_flight) (b, []) _
        (λ e.
          impossible e (not_refused (can_submit p c b.fields) (is_frozen b) b.in_flight frozen h.1))
        (λ e. rw (begin, h.2, h.3) refl)

  run-IsHeld :
      (p : Platform) (events : List (Context × Event)) (c : Context) (uuid : String) (b : Booking)
      → given (some key) ≡ some key
      → All (λ (context, event). is_quiet event ≡ true) events
      → IsHeld b
      → (run p (events ++ (c, submit uuid) ∷ []) b).1 ≡ send request key ∷ []
  unfolding run step
  run-IsHeld p [] c uuid b g q h = ap (λ es. es ++ []) (create-IsHeld p c uuid b g h)
  run-IsHeld p ((context, event) ∷ more) c uuid b g q h =
      let quiet = step-IsQuiet p context event b g q.0 h in
      ap (λ es. es ++ (run p (more ++ (c, submit uuid) ∷ []) (step p context event b).0).1) quiet.1
      ∙ run-IsHeld p more c uuid (step p context event b).0 g q.1 quiet.0

  on_not_created-IsHeld :
      (was : Bool) (cause : Cause) (b : Booking)
      → given (some key) ≡ some key
      → retain_for_retry b.keys.uncertain cause ≡ true
      → b.pending ≡ some request
      → b.keys.key ≡ some key
      → IsQuiet (on_not_created was cause b)
  unfolding on_not_created failed pending_key
  on_not_created-IsHeld was cause b g r h k =
      let u = record b { keys = failed b.keys cause } in
      let s = forgotten u in
      let key_kept : u.keys.key ≡ some key = rw (r, k) refl in
      let frozen : is_frozen u ≡ true = rw (key_kept, g) refl in
      let kept : s ≡ u = forgotten-frozen u frozen in
      each_branch IsQuiet (is_conflict_response cause && not (is_frozen s)) _ _
        (λ e.
          impossible (ap is_frozen kept ∙ frozen)
            (second_false (is_conflict_response cause) (is_frozen s) e))
        (λ e.
          ((refl, refl, ap (λ t. t.pending) kept ∙ h, ap (λ t. t.keys.key) kept ∙ key_kept), refl))

-- After a failure of the request of a booking that leaves its outcome open, with whatever changes of the
-- fields, applications to the waiting list and late answers in between, and whatever the form then says and
-- whatever random key is at hand, the next submission sends the same request under the same key, and
-- nothing else is sent before.
pub run_retries :
    (p : Platform) (request : ReservationCreationRequest) (was : Bool) (key : String)
    (cause : Cause) (b : Booking) (first last : Context) (events : List (Context × Event))
    (uuid : String)
    → b.phase ≡ sending request was
    → b.pending ≡ some request
    → b.keys.key ≡ some key
    → given (some key) ≡ some key
    → retain_for_retry b.keys.uncertain cause ≡ true
    → All (λ (context, event). is_quiet event ≡ true) events
    → (run p ((first, not_created cause) ∷ events ++ (last, submit uuid) ∷ []) b).1
      ≡ send request key ∷ []
unfolding run step settle
run_retries p request was key cause b first last events uuid ph h k g r q =
    let quiet =
      subst (λ phase. IsQuiet request key (settle (not_created cause) phase b)) (sym ph)
        (on_not_created-IsHeld request key was cause b g r h k) in
    let next = step p first (not_created cause) b in
    ap (λ es. es ++ (run p (events ++ (last, submit uuid) ∷ []) next.0).1) quiet.1
    ∙ run-IsHeld request key p events last uuid next.0 g q quiet.0
