-- ===== src/Booking/Customer/Slots.antt =====
-- The slots of the dialog: one for each start, the best that any employee offers.
pub mod Laws
use g_manager.Common.{
  ℕ, ◌+◌, String, Bool, true, false, Option, none, some, List, [], ◌∷◌, ◌++◌, map, ltb,
  if◌then◌else◌, Dict, lookup, insert, flat_map,
}
use g_manager.Booking.Types.{
  AvailabilitySlot, EmployeeAvailability, BookingSlotStatus, available, unavailable,
}

abbrev pub rank : AvailabilitySlot → ℕ
rank slot = elim slot.status [ none ↦ 0 | some available ↦ 0 | some unavailable ↦ 2 | some _ ↦ 1 ]

abbrev pub offered_by : EmployeeAvailability → AvailabilitySlot → AvailabilitySlot
offered_by employee slot = record slot {
  employee_id = some employee.employee_id;
  employee_name = some employee.employee_name;
}

-- The slots of all employees, in the order of the two loops.
abbrev pub offered : List EmployeeAvailability → List AvailabilitySlot
offered employees = flat_map (λ employee. map (offered_by employee) employee.slots) employees

-- One pass of the inner loop.
unfoldable pub add_slot : AvailabilitySlot → Dict AvailabilitySlot → Dict AvailabilitySlot
unfolding lookup insert
add_slot value unique = elim (lookup value.start_time unique) [
  | none ↦ insert value.start_time value unique
  | some previous ↦
      if ltb (rank value) (rank previous) then insert value.start_time value unique else unique
]

unfoldable pub unique_slots : List AvailabilitySlot → Dict AvailabilitySlot → Dict AvailabilitySlot
unfolding add_slot
unique_slots [] unique = unique
unique_slots (value ∷ more) unique = unique_slots more (add_slot value unique)

abbrev pub values : Dict AvailabilitySlot → List AvailabilitySlot
values unique = map (λ (key, value). value) unique

-- Array.prototype.sort by the start.
abbrev pub insert_slot :
    (String → String → Bool) → AvailabilitySlot → List AvailabilitySlot → List AvailabilitySlot
insert_slot not_after slot [] = slot ∷ []
insert_slot not_after slot (s ∷ ss) =
    let rest = insert_slot not_after slot ss in
    if not_after slot.start_time s.start_time then slot ∷ s ∷ ss else s ∷ rest

abbrev pub sort_slots : (String → String → Bool) → List AvailabilitySlot → List AvailabilitySlot
sort_slots not_after [] = []
sort_slots not_after (s ∷ ss) = insert_slot not_after s (sort_slots not_after ss)

unfoldable pub slots_of :
    (not_after : String → String → Bool)
    → Option (List EmployeeAvailability)
    → List AvailabilitySlot
unfolding unique_slots
slots_of not_after none = []
slots_of not_after (some employees) =
    sort_slots not_after (values (unique_slots (offered employees) []))
