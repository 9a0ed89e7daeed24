-- ===== src/Booking/Customer/View.antt =====
-- What a rendering of the dialog computes from its fields, its properties and the rules of the service.
use g_manager.Common.{
  ℕ, min, max, String, Bool, false, ◌&&◌, ◌||◌, not, Option, none, some, List, [], ◌∷◌, map, ◌===◌,
  if◌then◌else◌, find, filter, Dict, insert, includes,
}
use g_manager.Common.Json.{is_truthy_text}
use g_manager.Booking.Types.{BookingResource, BookingOptions, Service}
use g_manager.Booking.Customer.{Fields, Context}

-- a || b, of texts; an optional one, or the empty text; the text, or undefined.
abbrev pub text_or : String → String → String
text_or a b = if is_truthy_text a then a else b

abbrev pub or_empty : Option String → String
or_empty o = elim o [ none ↦ "" | some t ↦ t ]

abbrev pub or_undefined : String → Option String
or_undefined t = if is_truthy_text t then some t else none

abbrev pub service_of : Context → Fields → Option Service
service_of c f = find (λ service. service.id === f.service_id) c.services

abbrev pub employee_valid : Context → Fields → Bool
employee_valid c f = f.employee_choice === "ANY" || includes c.employees f.employee_choice

abbrev pub rules : Context → Option BookingOptions
rules c = if c.resource_options.is_error then none else c.resource_options.result

abbrev pub resources : Context → List BookingResource
resources c = elim (rules c) [ none ↦ [] | some r ↦ r.resources ]

abbrev pub selected_resource : Context → Fields → Option BookingResource
selected_resource c f = find (λ r. r.id === f.resource_id) (resources c)

-- Array.from(new Map(pairs)), where a later pair with the same key takes the earlier one's place.
abbrev pub named : Dict String → Dict String → Dict String
unfolding insert
named [] known = known
named ((id, name) ∷ more) known = named more (insert id name known)

abbrev pub locations : Context → Dict String
locations c = named (map (λ r. (r.location_id, r.location_name)) (resources c)) []

-- The key of the only entry.
abbrev pub only_key : Dict String → String
only_key ((id, name) ∷ []) = id
only_key _ = ""

abbrev pub scoped_location_id : Context → Fields → String
scoped_location_id c f =
    let of_resource : String = elim (selected_resource c f) [
      | none ↦ ""
      | some r ↦ r.location_id
    ] in
    text_or f.location_id (text_or of_resource (only_key (locations c)))

abbrev pub area_pair : BookingResource → String × String
area_pair r = let id = or_empty r.area_id in (id, text_or (or_empty r.area_name) id)

abbrev pub areas : Context → Fields → Dict String
areas c f =
    let here = filter (λ r. r.location_id === scoped_location_id c f) (resources c) in
    named (map area_pair (filter (λ r. is_truthy_text (or_empty r.area_id)) here)) []

abbrev pub scoped_area_id : Context → Fields → String
scoped_area_id c f =
    let of_resource : String = elim (selected_resource c f) [
      | none ↦ ""
      | some r ↦ or_empty r.area_id
    ] in
    text_or f.area_id (text_or of_resource (only_key (areas c f)))

abbrev pub resource_required : Context → Fields → Bool
resource_required c f = elim (rules c) [
  | some r ↦ r.resource_required
  | none ↦ elim (service_of c f) [
    | none ↦ false
    | some s ↦ elim s.requires_resource [ none ↦ false | some b ↦ b ]
  ]
]

abbrev pub physical_step : Context → Fields → Bool
physical_step c f = resource_required c f || is_truthy_text f.resource_id

abbrev pub scope_ready : Context → Fields → Bool
scope_ready c f =
    not (resource_required c f)
    || (is_truthy_text (scoped_location_id c f) && is_truthy_text (scoped_area_id c f))

abbrev pub minimum : Context → ℕ
minimum c = elim (rules c) [
  | none ↦ 30
  | some r ↦
      if r.variable_duration then max 30 r.minimum_duration_minutes else r.minimum_duration_minutes
]

abbrev pub default_duration : Context → Fields → ℕ
default_duration c f = elim (rules c) [
  | some r ↦
      if r.variable_duration
      then min r.maximum_duration_minutes (max (minimum c) r.default_duration_minutes)
      else r.default_duration_minutes
  | none ↦ elim (service_of c f) [
    | none ↦ 30
    | some s ↦ elim s.duration_minutes [ none ↦ 30 | some d ↦ d ]
  ]
]

abbrev pub chosen_duration : Context → Fields → ℕ
chosen_duration c f = elim f.duration_choice [ none ↦ default_duration c f | some d ↦ d ]

abbrev pub variable_duration : Context → Bool
variable_duration c = elim (rules c) [ none ↦ false | some r ↦ r.variable_duration ]
