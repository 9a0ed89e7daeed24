-- ===== src/Booking/Customer/Steps.antt =====
-- A booking, and an application to the waiting list.
-- `create` and `joinWaitlist` are cut at each point where they wait. `uuid` is the next random key.
use g_manager.Common.{
  String, Bool, true, false, ◌&&◌, ◌||◌, not, Option, none, some, List, [], ◌∷◌, ◌===◌,
  if◌then◌else◌, is_some,
}
use g_manager.Api.Http.{Cause}
use g_manager.Api.Client.{given}
use g_manager.Api.Idempotency.{begin, succeeded, failed, pending_key, is_conflict_response}
use g_manager.Messages.Booking.{customer_reservation_error}
use g_manager.Booking.Types.{
  AvailabilitySlot, CreateReservationInput, ReservationCreationRequest, single, recurring,
}
use g_manager.Booking.Customer.{
  Platform, Fields, idle, sending, notifying, refetching, joining_sent, refetching_join, Booking,
  Context,
}
use g_manager.Booking.Customer.View.{or_undefined}
use g_manager.Booking.Customer.Timing.{duration_minutes, timing}
use g_manager.Booking.Customer.Choice.{
  chosen_slot, resolved_resource_id, resolved_location_id, resolved_area_id, can_submit, can_join,
}

pub record WaitlistInput : Type 0 where
  pub service_id : String
  pub employee_id : String
  pub resource_id : Option String
  pub location_id : Option String
  pub desired_start : String

-- What the hook does outside of its state.
pub data Effect : Type 0 where
  send : ReservationCreationRequest → (key : String) → Effect
  send_waitlist : WaitlistInput → Effect
  toast : String → Effect
  call_on_created : Option String → Effect
  release_navigation call_on_waitlisted refetch_preview refetch_availability : Effect

abbrev pub Step : Type 0
Step = Booking × List Effect

-- resetSelection()
abbrev pub reset_selection : Booking → Booking
reset_selection b = record b {
  fields = record b.fields { selected_start = ""; selected_slot = none };
  error = "";
}

-- resetSelection(true)
abbrev pub reset_times : Booking → Booking
reset_times b =
    let cleared = reset_selection b in
    record cleared {
      fields = record cleared.fields { from_time = ""; to_time = ""; end_date = "" };
    }

abbrev pub is_frozen : Booking → Bool
is_frozen b = is_some (given (pending_key b.keys))

abbrev pub is_blocked : Booking → Bool
is_blocked b = b.submitting || (is_frozen b || b.joining)

abbrev pub base_input : Platform → Context → Fields → CreateReservationInput
unfolding timing resolved_resource_id resolved_location_id resolved_area_id
base_input p c f = record {
  service_id = f.service_id;
  resource_id = or_undefined (resolved_resource_id p c f);
  location_id = or_undefined (resolved_location_id p c f);
  area_id = or_undefined (resolved_area_id p c f);
  employee_id = if f.employee_choice === "ANY" then none else some f.employee_choice;
  start_time = f.selected_start;
  duration_minutes = duration_minutes p c f;
  note = or_undefined f.note;
}

abbrev pub request_of : Platform → Context → Fields → ReservationCreationRequest
unfolding timing resolved_resource_id resolved_location_id resolved_area_id
request_of p c f =
    if f.is_recurring
    then recurring (record {
      input = record (base_input p c f) { employee_id = some f.employee_choice };
      frequency = f.frequency;
      interval = f.recurrence_interval;
      occurrences = f.occurrences;
      conflict_policy = f.conflict_policy;
    })
    else single (base_input p c f)

-- pending.current ?? …
abbrev pub request_or :
    Option ReservationCreationRequest → ReservationCreationRequest → ReservationCreationRequest
request_or pending new = elim pending [ none ↦ new | some request ↦ request ]

unfoldable pub create : Platform → Context → (uuid : String) → Booking → Step
unfolding begin can_submit timing resolved_resource_id resolved_location_id resolved_area_id
    pending_key
create p c uuid b =
    let request = request_or b.pending (request_of p c b.fields) in
    let (keys, key) = begin b.keys uuid in
    if (not (can_submit p c b.fields) && not (is_frozen b)) || b.in_flight then (b, []) else (
      record b {
        in_flight = true;
        submitting = true;
        error = "";
        pending = some request;
        keys = keys;
        phase = sending request b.fields.is_recurring;
      },
      send request key ∷ [],
    )

abbrev pub first : List String → Option String
first [] = none
first (id ∷ ids) = some id

-- The server has answered the request.
unfoldable pub on_created : ReservationCreationRequest → List String → Booking → Step
unfolding succeeded
on_created (single input) ids b = (
  record b { keys = succeeded b.keys; pending = none; phase = notifying },
  toast "Zahtev poslat - čeka potvrdu." ∷ release_navigation ∷ call_on_created (first ids) ∷ [],
)
on_created (recurring input) ids b = (
  record b {
    keys = succeeded b.keys;
    pending = none;
    phase = notifying;
    recurrence_result = some ids;
  },
  toast "Serija rezervacija je obrađena." ∷ release_navigation ∷ call_on_created none ∷ [],
)

-- `finally`, of `create` and of `joinWaitlist`.
abbrev pub finished : Booking → Booking
finished b = record b { in_flight = false; submitting = false; phase = idle }

abbrev pub finished_join : Booking → Booking
finished_join b = record b { in_flight = false; joining = false; phase = idle }

abbrev pub forgotten : Booking → Booking
unfolding pending_key
forgotten b = if is_frozen b then b else record b { pending = none }

unfoldable pub on_not_created : (was_recurring : Bool) → Cause → Booking → Step
unfolding failed is_conflict_response customer_reservation_error pending_key
on_not_created was_recurring cause b =
    let s = forgotten (record b { keys = failed b.keys cause }) in
    if is_conflict_response cause && not (is_frozen s)
    then if was_recurring
      then (
        record s {
          error =
              "Dostupnost serije se promenila. Osvežite i proverite konflikte pre novog pokušaja.";
          phase = refetching;
        },
        refetch_preview ∷ refetch_availability ∷ [],
      )
      else (
        record (reset_selection s) {
          error =
              "Termin je u međuvremenu zauzet. Izaberite ga ponovo ili se prijavite na listu čekanja.";
          phase = refetching;
        },
        refetch_availability ∷ [],
      )
    else (
      finished (record s {
        error =
            if is_frozen s
            then "Ishod prethodnog zahteva nije potvrđen. Proverite isti zahtev pre novog rezervisanja."
            else customer_reservation_error cause
                "Termin nije moguće rezervisati. Pokušajte ponovo.";
      }),
      [],
    )

abbrev pub employee_of : Option AvailabilitySlot → Option String
employee_of o = elim o [ none ↦ none | some slot ↦ given slot.employee_id ]

abbrev pub start_of : Option AvailabilitySlot → String
start_of o = elim o [ none ↦ "" | some slot ↦ slot.start_time ]

unfoldable pub join_waitlist : Platform → Context → Booking → Step
unfolding can_join chosen_slot resolved_resource_id resolved_location_id pending_key
join_waitlist p c b =
    let slot = chosen_slot p c b.fields in
    elim (employee_of slot) [
      | none ↦ (b, [])
      | some employee ↦
          if not (can_join p c b.fields) || (b.in_flight || is_blocked b) then (b, []) else (
            record b { in_flight = true; joining = true; error = ""; phase = joining_sent },
            send_waitlist (record {
              service_id = b.fields.service_id;
              employee_id = employee;
              resource_id = or_undefined (resolved_resource_id p c b.fields);
              location_id = or_undefined (resolved_location_id p c b.fields);
              desired_start = start_of slot;
            })
                ∷ [],
          )
    ]

unfoldable pub on_not_joined : Cause → Booking → Step
unfolding customer_reservation_error
on_not_joined cause b = (
  record b {
    error = customer_reservation_error cause "Prijava na listu čekanja nije uspela.";
    phase = refetching_join;
  },
  refetch_availability ∷ [],
)
