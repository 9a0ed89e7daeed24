-- ===== src/Booking/Customer/Machine/Laws.antt =====
-- The states that the dialog reaches, and a second submission while one is under way.
use g_manager.Common.{
  String, Bool, true, false, ◌&&◌, ◌||◌, not, none, some, List, [], ◌∷◌, ◌≡◌, refl, subst, sym, ◌∙◌,
  each_branch, impossible, ||-eq-false, arith, is_some, both_branches, Option-cases, inl, inr,
}
use g_manager.Api.Http.{Cause}
use g_manager.Api.Idempotency.{
  IdempotencyKeyManager, begin, succeeded, failed, pending_key, is_conflict_response,
}
use g_manager.Booking.Types.{ReservationCreationRequest, single, recurring}
use g_manager.Booking.Customer.{
  Platform, Fields, Phase, idle, sending, notifying, refetching, joining_sent, waitlisting,
  refetching_join, Booking, Context,
}
use g_manager.Booking.Customer.Choice.{can_submit, can_join, chosen_slot}
use g_manager.Booking.Customer.Steps.{
  Step, create, on_created, on_not_created, join_waitlist, is_frozen, is_blocked, employee_of,
  reset_times, reset_selection, forgotten,
}
use g_manager.Booking.Customer.Machine.{
  Event, edit, choose, reset, submit, created, not_created, notified, refetched, join, joined,
  times, not_joined, BookingPrefill, opening, step, settle, run, rebind, choose_slot,
}

abbrev pub Flags : (in_flight submitting joining : Bool) → Booking → Type 0
Flags in_flight submitting joining b =
    (b.in_flight ≡ in_flight) × (b.submitting ≡ submitting) × (b.joining ≡ joining)

-- What holds of the references and flags in each phase.
abbrev pub Fits : Phase → Booking → Type 0
Fits idle b = Flags false false false b × (is_some b.pending ≡ is_frozen b)
Fits (sending request was_recurring) b =
    Flags true true false b × (b.pending ≡ some request) × (is_some b.keys.key ≡ true)
Fits notifying b = Flags true true false b × (is_some b.pending ≡ is_frozen b)
Fits refetching b = Flags true true false b × (is_some b.pending ≡ is_frozen b)
Fits joining_sent b = Flags true false true b × (is_some b.pending ≡ is_frozen b)
Fits waitlisting b = Flags true false true b × (is_some b.pending ≡ is_frozen b)
Fits refetching_join b = Flags true false true b × (is_some b.pending ≡ is_frozen b)

abbrev pub IsValid : Booking → Type 0
IsValid b = Fits b.phase b

-- Fields and the error are not among it.
Fits-fields :
    (phase : Phase) (b : Booking) (f : Fields) (e : String)
    → Fits phase b
    → Fits phase (record b { fields = f; error = e })
Fits-fields idle b f e h = h
Fits-fields (sending request was) b f e h = h
Fits-fields notifying b f e h = h
Fits-fields refetching b f e h = h
Fits-fields joining_sent b f e h = h
Fits-fields waitlisting b f e h = h
Fits-fields refetching_join b f e h = h

-- While nothing is in flight, the dialog is idle.
pub Fits-idle :
    (phase : Phase) (b : Booking)
    → Fits phase b
    → b.in_flight ≡ false
    → Flags false false false b × (is_some b.pending ≡ is_frozen b)
Fits-idle idle b h e = h
Fits-idle (sending request was) b h e = ground arith
Fits-idle notifying b h e = ground arith
Fits-idle refetching b h e = ground arith
Fits-idle joining_sent b h e = ground arith
Fits-idle waitlisting b h e = ground arith
Fits-idle refetching_join b h e = ground arith

abbrev StepIsValid : Step → Type 0
StepIsValid s = IsValid s.0

-- A key is at hand once an attempt has begun.
begin-key : (m : IdempotencyKeyManager) (uuid : String) → is_some (begin m uuid).0.key ≡ true
unfolding begin
begin-key m uuid = ground arith

create-IsValid :
    (p : Platform) (c : Context) (uuid : String) (b : Booking)
    → IsValid b
    → StepIsValid (create p c uuid b)
unfolding create
create-IsValid p c uuid b h =
    let refused = not (can_submit p c b.fields) && not (is_frozen b) in
    each_branch StepIsValid (refused || b.in_flight) (b, []) _ (λ e. h)
      (λ e.
        let free = Fits-idle b.phase b h (||-eq-false refused b.in_flight e).1 in
        ((refl, refl, free.0.2), refl, begin-key b.keys uuid))

join_waitlist-IsValid :
    (p : Platform) (c : Context) (b : Booking) → IsValid b → StepIsValid (join_waitlist p c b)
unfolding join_waitlist
join_waitlist-IsValid p c b h = elim (Option-cases (employee_of (chosen_slot p c b.fields))) [
  | inl e ↦ rw (join_waitlist, e) h
  | inr (employee, e) ↦
      rw (join_waitlist, e)
        (each_branch StepIsValid (not (can_join p c b.fields) || (b.in_flight || is_blocked b))
          (b, []) _ (λ e. h)
          (λ e.
            let free =
              Fits-idle b.phase b h
                (||-eq-false b.in_flight (is_blocked b)
                  (||-eq-false (not (can_join p c b.fields)) _ e).1).0 in
            ((refl, free.0.1, refl), free.1)))
]

on_created-IsValid :
    (request : ReservationCreationRequest) (ids : List String) (b : Booking)
    → Flags true true false b
    → StepIsValid (on_created request ids b)
unfolding on_created succeeded pending_key
on_created-IsValid (single input) ids b h = (h, refl)
on_created-IsValid (recurring input) ids b h = (h, refl)

forgotten-fits :
    (b : Booking)
    → Flags true true false b
    → is_some b.pending ≡ true
    → Flags true true false (forgotten b)
      × (is_some (forgotten b).pending ≡ is_frozen (forgotten b))
unfolding pending_key
forgotten-fits b h k =
    each_branch (λ s. Flags true true false s × (is_some s.pending ≡ is_frozen s)) (is_frozen b) b
      (record b { pending = none }) (λ e. (h, k ∙ sym e)) (λ e. (h, sym e))

on_not_created-IsValid :
    (was : Bool) (cause : Cause) (b : Booking)
    → Flags true true false b
    → is_some b.pending ≡ true
    → StepIsValid (on_not_created was cause b)
unfolding on_not_created
on_not_created-IsValid was cause b h k =
    let s = forgotten (record b { keys = failed b.keys cause }) in
    let fits = forgotten-fits (record b { keys = failed b.keys cause }) h k in
    both_branches StepIsValid (is_conflict_response cause && not (is_frozen s)) _ _
      (both_branches StepIsValid was _ _ fits fits) ((refl, refl, fits.0.2), fits.1)

settle-IsValid :
    (event : Event) (phase : Phase) (b : Booking)
    → Fits phase b
    → b.phase ≡ phase
    → StepIsValid (settle event phase b)
unfolding settle
settle-IsValid (created ids) (sending request was) b h e = on_created-IsValid request ids b h.0
settle-IsValid (not_created cause) (sending request was) b h e =
    on_not_created-IsValid was cause b h.0 (rw h.1 refl)
settle-IsValid (notified ok) notifying b h e = ((refl, refl, h.0.2), h.1)
settle-IsValid refetched refetching b h e = ((refl, refl, h.0.2), h.1)
settle-IsValid joined joining_sent b h e = h
settle-IsValid (not_joined cause) joining_sent b h e = h
settle-IsValid joined waitlisting b h e = ((refl, h.0.1, refl), h.1)
settle-IsValid (not_joined cause) waitlisting b h e = h
settle-IsValid refetched refetching_join b h e = ((refl, h.0.1, refl), h.1)
settle-IsValid _ _ b h e = subst (λ phase. Fits phase b) (sym e) h

rebind-IsValid : (p : Platform) (c : Context) (b : Booking) → IsValid b → IsValid (rebind p c b)
unfolding rebind
rebind-IsValid p c b h = both_branches IsValid _ b _ h (Fits-fields b.phase b _ b.error h)

step-IsValid :
    (p : Platform) (c : Context) (event : Event) (b : Booking)
    → IsValid b
    → StepIsValid (step p c event b)
unfolding step choose_slot
step-IsValid p c (edit fields) b h = Fits-fields b.phase b fields b.error h
step-IsValid p c (choose slot) b h = Fits-fields b.phase b (choose_slot p c slot b).fields "" h
step-IsValid p c (reset true) b h = Fits-fields b.phase b (reset_times b).fields "" h
step-IsValid p c (reset false) b h = Fits-fields b.phase b (reset_selection b).fields "" h
step-IsValid p c times b h = rebind-IsValid p c b h
step-IsValid p c (submit uuid) b h = create-IsValid p c uuid b h
step-IsValid p c join b h = join_waitlist-IsValid p c b h
step-IsValid p c (created ids) b h = settle-IsValid (created ids) b.phase b h refl
step-IsValid p c (not_created cause) b h = settle-IsValid (not_created cause) b.phase b h refl
step-IsValid p c (notified ok) b h = settle-IsValid (notified ok) b.phase b h refl
step-IsValid p c refetched b h = settle-IsValid refetched b.phase b h refl
step-IsValid p c joined b h = settle-IsValid joined b.phase b h refl
step-IsValid p c (not_joined cause) b h = settle-IsValid (not_joined cause) b.phase b h refl

-- In whatever order the events come, from a valid state on.
pub run-IsValid :
    (p : Platform) (events : List (Context × Event)) (b : Booking)
    → IsValid b
    → IsValid (run p events b).0
unfolding run
run-IsValid p [] b h = h
run-IsValid p ((c, event) ∷ more) b h =
    run-IsValid p more (step p c event b).0 (step-IsValid p c event b h)

-- Whatever happens to a dialog from its opening on, its flags say where it waits; the request of a booking
-- that is under way is the one that is kept, and it has a key; and in every other phase a request is kept
-- exactly while a key that is not empty is pending.
pub run-opening-IsValid :
    (p : Platform) (events : List (Context × Event)) (prefill : BookingPrefill)
    → IsValid (run p events (opening prefill)).0
unfolding pending_key
run-opening-IsValid p events prefill =
    run-IsValid p events (opening prefill) ((refl, refl, refl), refl)

abbrev pub is_idle : Phase → Bool
is_idle idle = true
is_idle _ = false

Fits-in_flight :
    (phase : Phase) (b : Booking) → Fits phase b → is_idle phase ≡ false → b.in_flight ≡ true
Fits-in_flight idle b h e = ground arith
Fits-in_flight (sending request was) b h e = h.0.0
Fits-in_flight notifying b h e = h.0.0
Fits-in_flight refetching b h e = h.0.0
Fits-in_flight joining_sent b h e = h.0.0
Fits-in_flight waitlisting b h e = h.0.0
Fits-in_flight refetching_join b h e = h.0.0

create_in_flight :
    (p : Platform) (c : Context) (uuid : String) (b : Booking)
    → b.in_flight ≡ true
    → create p c uuid b ≡ (b, [])
unfolding create
create_in_flight p c uuid b h =
    let refused = not (can_submit p c b.fields) && not (is_frozen b) in
    each_branch (λ (s : Step). s ≡ (b, [])) (refused || b.in_flight) (b, []) _ (λ e. refl)
      (λ e. impossible h (||-eq-false refused b.in_flight e).1)

pub join_in_flight :
    (p : Platform) (c : Context) (b : Booking)
    → (b.in_flight || is_blocked b) ≡ true
    → join_waitlist p c b ≡ (b, [])
unfolding join_waitlist
join_in_flight p c b h = elim (Option-cases (employee_of (chosen_slot p c b.fields))) [
  | inl e ↦ rw (join_waitlist, e) refl
  | inr (employee, e) ↦
      rw (join_waitlist, e)
        (each_branch (λ (s : Step). s ≡ (b, []))
          (not (can_join p c b.fields) || (b.in_flight || is_blocked b)) (b, []) _ (λ t. refl)
          (λ t. let free = (||-eq-false (not (can_join p c b.fields)) _ t).1 in impossible h free))
]

-- In a valid state in which a booking or an application to the waiting list is under way, another one of
-- either kind is not sent and changes nothing.
pub step_in_flight :
    (p : Platform) (c : Context) (uuid : String) (b : Booking)
    → IsValid b
    → is_idle b.phase ≡ false
    → (step p c (submit uuid) b ≡ (b, [])) × (step p c join b ≡ (b, []))
unfolding step
step_in_flight p c uuid b h e =
    let flying = Fits-in_flight b.phase b h e in
    (create_in_flight p c uuid b flying, join_in_flight p c b (ground (arith, flying)))
