-- ===== src/Booking/Customer.antt =====
-- reservations/customer/useCustomerBooking.ts: the state of the dialog, and what a rendering of it
-- gets from outside. `Platform` is what the language does with dates and texts.
pub mod Slots
pub mod View
pub mod Timing
pub mod Choice
pub mod Steps
pub mod Machine
use g_manager.Common.{ℕ, String, Bool, Option, List, ◌⊎◌}
use g_manager.Api.Idempotency.{IdempotencyKeyManager}
use g_manager.Booking.BusinessTime.{Zone}
use g_manager.Booking.Types.{
  AvailabilitySlot, EmployeeAvailability, BookingResource, BookingOptions, Service, Query,
  RecurrenceFrequency, RecurrenceConflictPolicy, ReservationCreationRequest,
}

-- The dates of the business's zone, and whether localeCompare puts the second text not before the first.
pub record Platform : Type 0 where
  pub zone : Zone
  pub not_after : String → String → Bool

-- The fields of the form.
pub record Fields : Type 0 where
  pub service_id : String
  pub resource_id : String
  pub location_id : String
  pub area_id : String
  pub employee_choice : String
  pub date : String
  pub from_time : String
  pub to_time : String
  pub end_date : String
  pub duration_choice : Option ℕ
  pub selected_slot : Option AvailabilitySlot
  pub selected_start : String
  pub note : String
  pub is_recurring : Bool
  pub frequency : RecurrenceFrequency
  pub recurrence_interval : ℕ
  pub occurrences : ℕ
  pub conflict_policy : RecurrenceConflictPolicy

-- Where a submission waits: for the answer, for `onCreated`, for the queries that are fetched again; and
-- an application to the waiting list likewise.
pub data Phase : Type 0 where
  idle notifying refetching joining_sent waitlisting refetching_join : Phase
  sending : ReservationCreationRequest → (was_recurring : Bool) → Phase

pub record Booking : Type 0 where
  pub fields : Fields
  pub recurrence_result : Option (List String)
  pub error : String
  pub submitting : Bool
  pub joining : Bool
  pub keys : IdempotencyKeyManager
  pub pending : Option ReservationCreationRequest
  pub in_flight : Bool
  pub phase : Phase

-- The properties of the dialog and its queries. Of an occurrence of the preview only `available` is read.
pub record Context : Type 0 where
  pub services : List Service
  pub employees : List String
  pub loading : Bool
  pub data_error : Bool
  pub resource_options : Query BookingOptions
  pub availability : Query (List EmployeeAvailability)
  pub slot_resources : Query (List BookingResource)
  pub preview : Query (List Bool)
  pub waitlist_availability : Query (List EmployeeAvailability)
