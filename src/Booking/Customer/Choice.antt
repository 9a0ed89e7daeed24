-- ===== src/Booking/Customer/Choice.antt =====
-- The slot that is chosen, and whether it may be booked or waited for.
pub mod Laws
use g_manager.Common.{
  ℕ, String, Bool, true, false, ◌&&◌, ◌||◌, not, Option, none, some, List, [], ◌∷◌, ◌==◌, ◌===◌,
  if◌then◌else◌, any, all, find, flat_map, is_some,
}
use g_manager.Common.Json.{is_truthy_text}
use g_manager.Booking.Types.{
  AvailabilitySlot, BookingSlotStatus, unavailable, is_occupied, BookingResource, Query,
  all_or_nothing, skip_conflicts, RecurrenceConflictPolicy,
}
use g_manager.Booking.Customer.{Platform, Fields, Booking, Context}
use g_manager.Booking.Customer.Slots.{slots_of}
use g_manager.Booking.Customer.View.{
  text_or, or_empty, service_of, employee_valid, rules, resources, selected_resource,
  scoped_location_id, scoped_area_id, physical_step, scope_ready,
}
use g_manager.Booking.Customer.Timing.{has_time_error, timing, duration_minutes}

unfoldable pub slots : Platform → Context → List AvailabilitySlot
unfolding slots_of
slots p c = slots_of p.not_after c.availability.result

-- `===` of two optional texts.
abbrev pub same_option : Option String → Option String → Bool
same_option none none = true
same_option (some a) (some b) = a === b
same_option _ _ = false

-- The slot that is offered now, for the one that was selected.
unfoldable pub offered_again :
    Platform → Context → Fields → (selected : Option AvailabilitySlot) → Option AvailabilitySlot
unfolding slots
offered_again p c f none = none
offered_again p c f (some selected) =
    if selected.start_time === f.selected_start
    then find
        (λ value.
          value.start_time === f.selected_start
          && (same_option value.employee_id selected.employee_id
              && same_option value.resource_id selected.resource_id))
        (slots p c)
    else none

unfoldable pub chosen_slot : Platform → Context → Fields → Option AvailabilitySlot
unfolding offered_again
chosen_slot p c f = offered_again p c f f.selected_slot

abbrev pub status_is_occupied : Option AvailabilitySlot → Bool
status_is_occupied o = elim o [
  | none ↦ false
  | some slot ↦ elim slot.status [ none ↦ false | some status ↦ is_occupied status ]
]

abbrev pub is_unavailable : AvailabilitySlot → Bool
is_unavailable slot = elim slot.status [ some unavailable ↦ true | _ ↦ false ]

abbrev pub occupied : Platform → Context → Fields → Bool
unfolding chosen_slot
occupied p c f = status_is_occupied (chosen_slot p c f)

abbrev slot_text : (AvailabilitySlot → Option String) → Option AvailabilitySlot → String
slot_text field o = elim o [ none ↦ "" | some slot ↦ or_empty (field slot) ]

unfoldable pub resolved_resource_id : Platform → Context → Fields → String
unfolding chosen_slot
resolved_resource_id p c f =
    text_or f.resource_id (slot_text (λ slot. slot.resource_id) (chosen_slot p c f))

unfoldable pub resolved_location_id : Platform → Context → Fields → String
unfolding chosen_slot
resolved_location_id p c f =
    let of_resource : String = elim (selected_resource c f) [
      | none ↦ ""
      | some r ↦ r.location_id
    ] in
    text_or (slot_text (λ slot. slot.location_id) (chosen_slot p c f))
      (text_or of_resource (scoped_location_id c f))

unfoldable pub resolved_area_id : Platform → Context → Fields → String
unfolding resolved_resource_id
resolved_area_id p c f =
    let assigned : String = elim (find (λ r. r.id === resolved_resource_id p c f) (resources c)) [
      | none ↦ ""
      | some r ↦ or_empty r.area_id
    ] in
    text_or assigned (scoped_area_id c f)

unfoldable pub resource_unavailable : Platform → Context → Fields → Bool
unfolding resolved_resource_id
resource_unavailable p c f =
    is_truthy_text (resolved_resource_id p c f) && (elim c.slot_resources.result [
      | none ↦ false
      | some found ↦ not (any (λ r. r.id === resolved_resource_id p c f && r.available) found)
    ])

-- !query.isFetching && !query.isError
abbrev pub is_settled : {A : Type 0} → Query A → Bool
is_settled q = not q.is_fetching && not q.is_error

-- What a booking and an application to the waiting list both need.
unfoldable pub is_ready : Platform → Context → Fields → Bool
unfolding timing
is_ready p c f =
    not c.loading
    && (not c.data_error
        && (is_some (service_of c f)
            && (is_some (rules c)
                && (employee_valid c f && (scope_ready c f && not (has_time_error p c f))))))

-- The part of `canSubmit` about the slot.
abbrev pub is_bookable : Fields → Option AvailabilitySlot → Bool
is_bookable f none = false
is_bookable f (some slot) =
    (not (status_is_occupied (some slot)) || f.is_recurring) && not (is_unavailable slot)

abbrev pub has_bookable_slot : Platform → Context → Fields → Bool
unfolding chosen_slot
has_bookable_slot p c f = is_bookable f (chosen_slot p c f)

abbrev pub has_resource : Platform → Context → Fields → Bool
unfolding resolved_resource_id resource_unavailable
has_resource p c f =
    not (physical_step c f)
    || (is_truthy_text (resolved_resource_id p c f)
        && (f.is_recurring || (is_settled c.slot_resources && not (resource_unavailable p c f))))

abbrev pub is_all_or_nothing : RecurrenceConflictPolicy → Bool
is_all_or_nothing all_or_nothing = true
is_all_or_nothing skip_conflicts = false

abbrev pub series_is_free : Context → Fields → Bool
series_is_free c f = not (f.employee_choice === "ANY") && (elim c.preview.result [
  | none ↦ false
  | some occurrences ↦
      is_settled c.preview
      && (any (λ free. free) occurrences
          && (not (is_all_or_nothing f.conflict_policy) || all (λ free. free) occurrences))
])

unfoldable pub can_submit : Platform → Context → Fields → Bool
unfolding is_ready chosen_slot resolved_resource_id resource_unavailable
can_submit p c f =
    is_ready p c f
    && (has_bookable_slot p c f
        && (is_settled c.availability
            && (is_settled c.resource_options
                && (has_resource p c f && (not f.is_recurring || series_is_free c f)))))

abbrev pub same_number : Option ℕ → Option ℕ → Bool
same_number none none = true
same_number (some a) (some b) = a == b
same_number _ _ = false

unfoldable pub needs_standard_waitlist : Platform → Context → Fields → Bool
unfolding chosen_slot timing
needs_standard_waitlist p c f =
    occupied p c f
    && (not f.is_recurring && (elim (rules c) [
      | none ↦ false
      | some r ↦
          r.variable_duration
          && not (
              same_number (duration_minutes p c f)
                (elim (service_of c f) [ none ↦ none | some s ↦ s.duration_minutes ]))
    ]))

unfoldable pub standard_slot : Platform → Context → Fields → Option AvailabilitySlot
unfolding needs_standard_waitlist chosen_slot
standard_slot p c f =
    if needs_standard_waitlist p c f
    then elim c.waitlist_availability.result [
      | none ↦ none
      | some employees ↦
          find (λ slot. slot.start_time === f.selected_start) (flat_map (λ e. e.slots) employees)
    ]
    else chosen_slot p c f

unfoldable pub can_join : Platform → Context → Fields → Bool
unfolding is_ready chosen_slot standard_slot needs_standard_waitlist
can_join p c f =
    is_ready p c f
    && (occupied p c f
        && (not f.is_recurring
            && (status_is_occupied (standard_slot p c f)
                && (is_settled c.resource_options
                    && (is_settled c.availability
                        && (not (needs_standard_waitlist p c f)
                            || is_settled c.waitlist_availability))))))
