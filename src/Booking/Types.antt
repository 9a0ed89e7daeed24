-- ===== src/Booking/Types.antt =====
-- types/availability.types.ts, types/reservation.types.ts and types/resource.types.ts, as far as bookings
-- read them. A field that is missing and one that is null are both `none`.
use g_manager.Common.{ℕ, String, Bool, true, false, Option, List}

pub data BookingSlotStatus : Type 0 where
  available occupied_reservation occupied_resource occupied_session unavailable : BookingSlotStatus

-- status?.startsWith('OCCUPIED_')
abbrev pub is_occupied : BookingSlotStatus → Bool
is_occupied occupied_reservation = true
is_occupied occupied_resource = true
is_occupied occupied_session = true
is_occupied _ = false

pub record AvailabilitySlot : Type 0 where
  pub status : Option BookingSlotStatus
  pub employee_id : Option String
  pub employee_name : Option String
  pub start_time : String
  pub end_time : String
  pub resource_id : Option String
  pub location_id : Option String

pub record EmployeeAvailability : Type 0 where
  pub employee_id : String
  pub employee_name : String
  pub slots : List AvailabilitySlot

pub record BookingResource : Type 0 where
  pub id : String
  pub location_id : String
  pub location_name : String
  pub available : Bool
  pub area_id : Option String
  pub area_name : Option String

pub record BookingOptions : Type 0 where
  pub resource_required : Bool
  pub resources : List BookingResource
  pub variable_duration : Bool
  pub minimum_duration_minutes : ℕ
  pub maximum_duration_minutes : ℕ
  pub default_duration_minutes : ℕ

pub record Service : Type 0 where
  pub id : String
  pub duration_minutes : Option ℕ
  pub requires_resource : Option Bool

pub data RecurrenceFrequency : Type 0 where
  weekly monthly : RecurrenceFrequency

pub data RecurrenceConflictPolicy : Type 0 where
  all_or_nothing skip_conflicts : RecurrenceConflictPolicy

pub record CreateReservationInput : Type 0 where
  pub service_id : String
  pub resource_id : Option String
  pub location_id : Option String
  pub area_id : Option String
  pub employee_id : Option String
  pub start_time : String
  pub duration_minutes : Option ℕ
  pub note : Option String

pub record RecurrenceInput : Type 0 where
  pub input : CreateReservationInput
  pub frequency : RecurrenceFrequency
  pub interval : ℕ
  pub occurrences : ℕ
  pub conflict_policy : RecurrenceConflictPolicy

pub data ReservationCreationRequest : Type 0 where
  single : CreateReservationInput → ReservationCreationRequest
  recurring : RecurrenceInput → ReservationCreationRequest

-- A query of the client's cache, as a component sees it.
pub record Query (A : Type 0) : Type 0 where
  pub result : Option A
  pub is_fetching : Bool
  pub is_error : Bool
