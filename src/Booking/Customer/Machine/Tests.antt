-- ===== src/Booking/Customer/Machine/Tests.antt =====
-- A booking for an hour, whose answer is lost, and the slots of two employees.
use Prim.Native.String.{◌++◌}
use g_manager.Common.{
  ℕ, ◌+◌, ◌*◌, ◌-◌, ◌/◌, ◌%◌, ◌≤◌, String, true, false, ◌||◌, not, none, some, List, [], ◌∷◌, ◌≡◌,
  refl, inl, inr, codes, get_or, All, IsIn, ◌===◌,
}
use g_manager.Api.Http.{http}
use g_manager.Api.Idempotency.{retain_for_retry}
use g_manager.Booking.BusinessTime.{LocalParts, local_text, business_local_to_instant}
use g_manager.Booking.Types.{
  AvailabilitySlot, EmployeeAvailability, available, occupied_reservation, BookingOptions, Query,
  ReservationCreationRequest, single,
}
use g_manager.Booking.Customer.{Platform, Fields, Context, Booking, sending}
use g_manager.Booking.Customer.View.{minimum}
use g_manager.Booking.Customer.Timing.{timing, duration_minutes}
use g_manager.Booking.Customer.Slots.{offered, slots_of}
use g_manager.Booking.Customer.Slots.Laws.{IsCovered, slots_of-IsCovered}
use g_manager.Booking.Customer.Choice.{
  chosen_slot, slots, can_submit, status_is_occupied, is_unavailable,
}
use g_manager.Booking.Customer.Choice.Laws.{can_submit_duration, can_submit_slot}
use g_manager.Booking.Customer.Steps.{send}
use g_manager.Booking.Customer.Machine.{
  Event, edit, submit, join, not_created, BookingPrefill, opening, run, step,
}
use g_manager.Booking.Customer.Machine.Laws.{IsValid, run-opening-IsValid, step_in_flight}
use g_manager.Booking.Customer.Machine.Retry.{run_retries}

abbrev digit : String → ℕ → ℕ
digit t i = get_or (codes t) i 48 - 48

abbrev shown : ℕ → String
shown n =
    get_or ("0" ∷ "1" ∷ "2" ∷ "3" ∷ "4" ∷ "5" ∷ "6" ∷ "7" ∷ "8" ∷ "9" ∷ []) (n / 10 % 10) ""
    ++ get_or ("0" ∷ "1" ∷ "2" ∷ "3" ∷ "4" ∷ "5" ∷ "6" ∷ "7" ∷ "8" ∷ "9" ∷ []) (n % 10) ""

abbrev parts : ℕ → LocalParts
parts t = record {
  year = "2026";
  month = "05";
  day = "04";
  hour = shown (t / 3_600_000);
  minute = shown (t / 60_000 % 60);
}

-- All times are of one day, without an offset.
abbrev plain_times : Platform
plain_times = record {
  zone = record {
    local_parts = parts;
    utc = λ year month day hour minute. (hour * 60 + minute) * 60_000;
    to_iso = λ t. local_text (parts t) ++ "Z";
    date_parse =
        λ t. some (((digit t 11 * 10 + digit t 12) * 60 + digit t 14 * 10 + digit t 15) * 60_000);
  };
  not_after = λ a b. true;
}

abbrev slot : AvailabilitySlot
slot = record {
  status = some available;
  employee_id = some "e1";
  employee_name = some "Eva";
  start_time = "2026-05-04T10:00Z";
  end_time = "2026-05-04T11:00Z";
  resource_id = none;
  location_id = none;
}

abbrev employees : List EmployeeAvailability
employees =
    record {
      employee_id = "e2";
      employee_name = "Iva";
      slots = record slot { status = some occupied_reservation } ∷ [];
    }
    ∷ record { employee_id = "e1"; employee_name = "Eva"; slots = slot ∷ [] }
    ∷ []

abbrev absent : {A : Type 0} → Query A
absent = record { result = none; is_fetching = false; is_error = false }

abbrev hourly : BookingOptions
hourly = record {
  resource_required = false;
  resources = [];
  variable_duration = true;
  minimum_duration_minutes = 30;
  maximum_duration_minutes = 120;
  default_duration_minutes = 60;
}

abbrev context : Context
context = record {
  services = record { id = "s1"; duration_minutes = some 60; requires_resource = none } ∷ [];
  employees = "e1" ∷ "e2" ∷ [];
  loading = false;
  data_error = false;
  resource_options = record absent { result = some hourly };
  availability = record absent { result = some employees };
  slot_resources = absent;
  preview = absent;
  waitlist_availability = absent;
}

abbrev nothing : BookingPrefill
nothing = record {
  service_id = none;
  resource_id = none;
  location_id = none;
  area_id = none;
  employee_id = none;
}

abbrev filled : Fields
filled = record (opening nothing).fields {
  service_id = "s1";
  date = "2026-05-04";
  from_time = "10:00";
  to_time = "11:00";
  end_date = "2026-05-04";
  selected_slot = some slot;
  selected_start = "2026-05-04T10:00Z";
}

best_shown : slots plain_times context ≡ slot ∷ []
unfolding slots
best_shown = refl

an_hour : duration_minutes plain_times context filled ≡ some 60
unfolding timing business_local_to_instant
an_hour = refl

may_submit : can_submit plain_times context filled ≡ true
unfolding can_submit business_local_to_instant
may_submit = refl

slots_of-IsCovered_example :
    let shown = slots_of plain_times.not_after (some employees) in
    All (λ s. IsIn s (offered employees)) shown × All (IsCovered shown) (offered employees)
slots_of-IsCovered_example = slots_of-IsCovered plain_times.not_after employees

can_submit_duration_example :
    (minimum context ≤ (timing plain_times context filled).duration)
    × ((timing plain_times context filled).duration ≤ 120)
can_submit_duration_example =
    can_submit_duration plain_times context filled hourly refl refl may_submit

can_submit_slot_example :
    (s : AvailabilitySlot) × (chosen_slot plain_times context filled ≡ some s)
    × IsIn s (slots plain_times context)
    × ((s.start_time === filled.selected_start) ≡ true)
    × (is_unavailable s ≡ false)
    × ((not (status_is_occupied (some s)) || filled.is_recurring) ≡ true)
can_submit_slot_example = can_submit_slot plain_times context filled may_submit

-- Filled in and sent.
abbrev begun : List (Context × Event)
begun = (context, edit filled) ∷ (context, submit "k1") ∷ []

run-opening-IsValid_example : IsValid (run plain_times begun (opening nothing)).0
run-opening-IsValid_example = run-opening-IsValid plain_times begun nothing

abbrev request : ReservationCreationRequest
request = single (record {
  service_id = "s1";
  resource_id = none;
  location_id = none;
  area_id = none;
  employee_id = none;
  start_time = "2026-05-04T10:00Z";
  duration_minutes = some 60;
  note = none;
})

abbrev waiting : Booking
waiting = record (opening nothing) {
  fields = filled;
  submitting = true;
  keys = record { key = some "k1"; uncertain = false; generate = none };
  pending = some request;
  in_flight = true;
  phase = sending request false;
}

sent_once : run plain_times begun (opening nothing) ≡ (waiting, send request "k1" ∷ [])
unfolding run step business_local_to_instant
sent_once = refl

step_in_flight_example :
    (step plain_times context (submit "k2") waiting ≡ (waiting, []))
    × (step plain_times context join waiting ≡ (waiting, []))
step_in_flight_example =
    step_in_flight plain_times context "k2" waiting ((refl, refl, refl), refl, refl) refl

run_retries_example :
    (run plain_times
      ((context, not_created (http none))
        ∷ (context, edit (opening nothing).fields)
        ∷ (context, submit "k2")
        ∷ [])
      waiting).1
    ≡ send request "k1" ∷ []
unfolding retain_for_retry
run_retries_example =
    run_retries plain_times request false "k1" (http none) waiting context context
      ((context, edit (opening nothing).fields) ∷ []) "k2" refl refl refl refl refl (refl, tt)

found : business_local_to_instant plain_times.zone "2026-05-04T10:00" ≡ inl "2026-05-04T10:00Z"
unfolding business_local_to_instant
found = refl

malformed :
    business_local_to_instant plain_times.zone "2026-5-4T10:00" ≡ inr "Datum i vreme nisu validni."
unfolding business_local_to_instant
malformed = refl
