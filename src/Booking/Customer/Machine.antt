-- ===== src/Booking/Customer/Machine.antt =====
-- The dialog as a machine: what the user does, and how the requests of it end.
pub mod Laws
pub mod Retry
mod Tests
use Prim.Native.String
use g_manager.Common.{
  ℕ, zero, suc, String, Bool, true, false, ◌&&◌, ◌||◌, not, Option, none, some, List, [], ◌∷◌, ◌++◌,
  ◌==◌, if◌then◌else◌, find,
}
use g_manager.Common.Json.{is_truthy_text}
use g_manager.Api.Http.{Cause}
use g_manager.Api.Idempotency.{new}
use g_manager.Booking.BusinessTime.{business_instant_to_local}
use g_manager.Booking.Types.{AvailabilitySlot, weekly, all_or_nothing}
use g_manager.Booking.Customer.{
  Platform, Fields, Phase, idle, sending, notifying, refetching, joining_sent, waitlisting,
  refetching_join, Booking, Context,
}
use g_manager.Booking.Customer.View.{variable_duration}
use g_manager.Booking.Customer.Timing.{Timing, timing}
use g_manager.Booking.Customer.Choice.{slots, is_settled}
use g_manager.Booking.Customer.Steps.{
  Step, reset_times, reset_selection, toast, release_navigation, call_on_waitlisted,
  refetch_availability, is_blocked, create, on_created, on_not_created, join_waitlist,
  on_not_joined, finished, finished_join,
}

pub data Event : Type 0 where
  edit : Fields → Event
  choose : AvailabilitySlot → Event
  reset : (clear_time : Bool) → Event
  submit : (uuid : String) → Event
  created : (ids : List String) → Event
  not_created : Cause → Event
  notified : (ok : Bool) → Event
  refetched join joined times : Event
  not_joined : Cause → Event

-- The properties `prefill`.
pub record BookingPrefill : Type 0 where
  pub service_id : Option String
  pub resource_id : Option String
  pub location_id : Option String
  pub area_id : Option String
  pub employee_id : Option String

abbrev or_default : String → Option String → String
or_default d o = elim o [ none ↦ d | some t ↦ t ]

abbrev pub opening : BookingPrefill → Booking
opening prefill = record {
  fields = record {
    service_id = or_default "" prefill.service_id;
    resource_id = or_default "" prefill.resource_id;
    location_id = or_default "" prefill.location_id;
    area_id = or_default "" prefill.area_id;
    employee_choice = or_default "ANY" prefill.employee_id;
    date = "";
    from_time = "";
    to_time = "";
    end_date = "";
    duration_choice = none;
    selected_slot = none;
    selected_start = "";
    note = "";
    is_recurring = false;
    frequency = weekly;
    recurrence_interval = 1;
    occurrences = 4;
    conflict_policy = all_or_nothing;
  };
  recurrence_result = none;
  error = "";
  submitting = false;
  joining = false;
  keys = new none;
  pending = none;
  in_flight = false;
  phase = idle;
}

abbrev drop : ℕ → String → String
drop zero s = s
drop (suc n) String.[] = ""
drop (suc n) (String.◌∷◌ c s) = drop n s

abbrev take : ℕ → String → String
take zero s = ""
take (suc n) String.[] = ""
take (suc n) (String.◌∷◌ c s) = String.◌∷◌ c (take n s)

-- The times of the slot, as far as they are converted before an invalid one throws.
abbrev pub typed_times : (start end : Option String) → Fields → Fields
typed_times none end f = f
typed_times (some start) none f = record f { from_time = drop 11 start }
typed_times (some start) (some end) f = record f {
  from_time = drop 11 start;
  to_time = drop 11 end;
  end_date = take 10 end;
}

unfoldable pub choose_slot : Platform → Context → AvailabilitySlot → Booking → Booking
unfolding business_instant_to_local
choose_slot p c slot b =
    let start = business_instant_to_local p.zone slot.start_time in
    let end = business_instant_to_local p.zone slot.end_time in
    let chosen = record b.fields { selected_start = slot.start_time; selected_slot = some slot } in
    record b {
      fields = if variable_duration c then typed_times start end chosen else chosen;
      error = "";
    }

abbrev same_instant : Option ℕ → Option ℕ → Bool
same_instant (some a) (some b) = a == b
same_instant _ _ = false

abbrev rebound : Platform → Context → Timing → Fields → Fields
unfolding slots
rebound p c t f =
    elim (find
      (λ s. same_instant (p.zone.date_parse s.start_time) (p.zone.date_parse t.manual_start))
      (slots p c)) [
        | none ↦ record f { selected_slot = none; selected_start = "" }
        | some slot ↦ record f { selected_slot = some slot; selected_start = slot.start_time }
      ]

-- The effect that selects the slot of the times that are typed in.
unfoldable pub rebind : Platform → Context → Booking → Booking
unfolding timing slots
rebind p c b =
    let t = timing p c b.fields in
    if not (is_truthy_text t.manual_start)
      || (is_truthy_text t.time_error || (not (is_settled c.availability) || is_blocked b))
    then b
    else record b { fields = rebound p c t b.fields }

-- How `onCreated` and `onWaitlisted` end, and the queries that are fetched again.
abbrev pub on_notified : (ok : Bool) → Booking → Step
on_notified ok b = (
  finished b,
  if ok then [] else toast "Rezervacija je sačuvana. Osvežite spisak za njen status." ∷ [],
)

abbrev pub on_waiting_list : Booking → Step
on_waiting_list b = (
  record b { phase = waitlisting },
  toast "Dodati ste na listu čekanja za izabrani termin."
      ∷ release_navigation
      ∷ call_on_waitlisted
      ∷ [],
)

unfoldable pub settle : Event → Phase → Booking → Step
unfolding on_created on_not_created on_not_joined
settle (created ids) (sending request was_recurring) b = on_created request ids b
settle (not_created cause) (sending request was_recurring) b = on_not_created was_recurring cause b
settle (notified ok) notifying b = on_notified ok b
settle refetched refetching b = (finished b, [])
settle joined joining_sent b = on_waiting_list b
settle (not_joined cause) joining_sent b = on_not_joined cause b
settle joined waitlisting b = (finished_join b, [])
settle (not_joined cause) waitlisting b = on_not_joined cause b
settle refetched refetching_join b = (finished_join b, [])
settle _ _ b = (b, [])

unfoldable pub step : Platform → Context → Event → Booking → Step
unfolding create join_waitlist settle rebind choose_slot
step p c (edit fields) b = (record b { fields = fields }, [])
step p c (choose slot) b = (choose_slot p c slot b, [])
step p c (reset clear_time) b = (if clear_time then reset_times b else reset_selection b, [])
step p c times b = (rebind p c b, [])
step p c (submit uuid) b = create p c uuid b
step p c join b = join_waitlist p c b
step p c event b = settle event b.phase b

-- The state and all effects of a run, in which each event meets a rendering with its own context.
unfoldable pub run : Platform → List (Context × Event) → Booking → Step
unfolding step
run p [] b = (b, [])
run p ((c, event) ∷ more) b =
    let (next, effects) = step p c event b in
    let (last, later) = run p more next in (last, effects ++ later)
