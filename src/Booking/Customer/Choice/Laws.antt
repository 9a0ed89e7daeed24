-- ===== src/Booking/Customer/Choice/Laws.antt =====
-- What may be booked, and what may be waited for.

use Prim.Native.String.{◌++◌}
use text.Mathlib.TextLemmas.{cons-append}
use g_manager.Common.{
  ℕ, ◌≤◌, String, Bool, true, false, ◌&&◌, ◌||◌, not, Option, none, some, ◌≡◌, refl, arith, is_some,
  &&-eq-true, Option-cases, inl, inr, both_branches, ◌⊎◌, ◌===◌, IsIn, find-IsIn, if◌then◌else◌,
  ltb, subst, ap, sym, ◌∙◌, impossible,
}
use g_manager.Common.Json.{is_truthy_text}
use g_manager.Booking.BusinessTime.{business_local_to_instant}
use g_manager.Booking.BusinessTime.Laws.{Answers, business_local_to_instant-Answers}
use g_manager.Booking.Types.{AvailabilitySlot, BookingOptions}
use g_manager.Booking.Customer.{Platform, Fields, Context}
use g_manager.Booking.Customer.View.{rules, minimum, service_of, employee_valid, scope_ready}
use g_manager.Booking.Customer.Timing.{
  Timing, timing, manual_timing, with_start, with_end, is_complete, range_error, checked_duration,
}
use g_manager.Booking.Customer.Choice.{
  offered_again, slots, status_is_occupied, chosen_slot, occupied, is_unavailable,
  has_bookable_slot, is_bookable, is_ready, can_submit, can_join,
}

exclusive :
    (ready slot o r x y : Bool)
    → (slot ≡ true → (not o || r) ≡ true)
    → ((ready && (slot && x)) && (ready && (o && (not r && y)))) ≡ false
exclusive ready slot o r x y h = ground arith

bookable :
    (p : Platform) (c : Context) (f : Fields) (slot : AvailabilitySlot)
    → chosen_slot p c f ≡ some slot
    → has_bookable_slot p c f ≡ true
    → ((not (status_is_occupied (some slot)) || f.is_recurring) ≡ true)
      × (not (is_unavailable slot) ≡ true)
unfolding has_bookable_slot
bookable p c f slot e h =
    &&-eq-true (not (status_is_occupied (some slot)) || f.is_recurring) (not (is_unavailable slot))
      (sym (ap (is_bookable f) e) ∙ h)

has_bookable_slot-free :
    (p : Platform) (c : Context) (f : Fields)
    → has_bookable_slot p c f ≡ true
    → (not (status_is_occupied (chosen_slot p c f)) || f.is_recurring) ≡ true
unfolding has_bookable_slot
has_bookable_slot-free p c f h = elim (Option-cases (chosen_slot p c f)) [
  | inl e ↦ impossible h (ap (is_bookable f) e)
  | inr (slot, e) ↦
      subst (λ o. (not (status_is_occupied o) || f.is_recurring) ≡ true) (sym e)
        (bookable p c f slot e h).0
]

-- No slot can be booked and waited for at once.
can_submit-can_join :
    (p : Platform) (c : Context) (f : Fields) → (can_submit p c f && can_join p c f) ≡ false
unfolding can_submit can_join
can_submit-can_join p c f =
    exclusive (is_ready p c f) (has_bookable_slot p c f) (occupied p c f) f.is_recurring _ _
      (has_bookable_slot-free p c f)

truthy-append : (s t : String) → is_truthy_text s ≡ true → is_truthy_text (s ++ t) ≡ true
truthy-append String.[] t h = ground arith
truthy-append (String.◌∷◌ c s) t h = rw (cons-append c s t) refl

-- Every error of the time says something.
says_why :
    (p : Platform) (t message : String)
    → business_local_to_instant p.zone t ≡ inr message
    → is_truthy_text message ≡ true
says_why p t message e = subst (Answers p.zone t) e (business_local_to_instant-Answers p.zone t)

abbrev InRange : Context → BookingOptions → Timing → Type 0
InRange c r t =
    is_truthy_text t.time_error ≡ false
    → (minimum c ≤ t.duration) × (t.duration ≤ r.maximum_duration_minutes)

in_range :
    (low high d : ℕ) (message : String)
    → is_truthy_text message ≡ true
    → is_truthy_text (if ltb d low || ltb high d then message else "") ≡ false
    → (low ≤ d) × (d ≤ high)
in_range low high d message t h = ground (arith, t, h)

range_error-says : (low high : ℕ) → is_truthy_text (range_error low high) ≡ true
unfolding range_error
range_error-says low high = truthy-append "Trajanje mora biti od " _ refl

checked_duration-InRange :
    (c : Context) (r : BookingOptions) (start : String) (d : Option ℕ)
    → InRange c r (checked_duration c r start d)
unfolding checked_duration
checked_duration-InRange c r start none h = impossible {b = true} refl h
checked_duration-InRange c r start (some d) h =
    in_range (minimum c) r.maximum_duration_minutes d
      (range_error (minimum c) r.maximum_duration_minutes)
      (range_error-says (minimum c) r.maximum_duration_minutes) h

module _ (p : Platform) (c : Context) (r : BookingOptions) (f : Fields) where
  with_end-InRange :
      (start t : String) (o : String ⊎ String)
      → business_local_to_instant p.zone t ≡ o
      → InRange c r (with_end p c r f start o)
  unfolding with_end
  with_end-InRange start t (inr message) e h = impossible (says_why p t message e) h
  with_end-InRange start t (inl end) e h = checked_duration-InRange c r start _ h

  with_start-InRange :
      (t : String) (o : String ⊎ String)
      → business_local_to_instant p.zone t ≡ o
      → InRange c r (with_start p c r f o)
  unfolding with_start
  with_start-InRange t (inr message) e h = impossible (says_why p t message e) h
  with_start-InRange t (inl start) e h = with_end-InRange start _ _ refl h

  manual_timing-InRange : InRange c r (manual_timing p c r f)
  unfolding manual_timing
  manual_timing-InRange =
      both_branches (InRange c r) (not (is_complete f)) _ _ (λ h. impossible {b = true} refl h)
        (with_start-InRange _ _ refl)

refuted : (b : Bool) → not b ≡ true → b ≡ false
refuted b h = ground arith

ready_last : (a b c d e f g : Bool) → (a && (b && (c && (d && (e && (f && g)))))) ≡ true → g ≡ true
ready_last a b c d e f g h = ground arith

no_time_error :
    (p : Platform) (c : Context) (f : Fields)
    → is_ready p c f ≡ true
    → is_truthy_text (timing p c f).time_error ≡ false
unfolding is_ready
no_time_error p c f h = refuted (is_truthy_text (timing p c f).time_error) (
    ready_last (not c.loading) (not c.data_error) (is_some (service_of c f)) (is_some (rules c))
      (employee_valid c f) (scope_ready c f) _ h)

-- Where the duration is variable and times are typed in, a booking that may be sent lasts as long as the
-- rules allow.
pub can_submit_duration :
    (p : Platform) (c : Context) (f : Fields) (r : BookingOptions)
    → rules c ≡ some r
    → (r.variable_duration && (is_truthy_text f.from_time || is_truthy_text f.to_time)) ≡ true
    → can_submit p c f ≡ true
    → (minimum c ≤ (timing p c f).duration) × ((timing p c f).duration ≤ r.maximum_duration_minutes)
unfolding timing can_submit
can_submit_duration p c f r e m h =
    let manual : timing p c f ≡ manual_timing p c r f = rw (timing, e, m) refl in
    let quiet = no_time_error p c f (&&-eq-true (is_ready p c f) _ h).0 in
    subst (InRange c r) (sym manual) (manual_timing-InRange p c r f) quiet

offered_again-IsIn :
    (p : Platform) (c : Context) (f : Fields) (slot : AvailabilitySlot)
    (o : Option AvailabilitySlot)
    → offered_again p c f o ≡ some slot
    → IsIn slot (slots p c) × ((slot.start_time === f.selected_start) ≡ true)
unfolding offered_again
offered_again-IsIn p c f slot none h = ground arith
offered_again-IsIn p c f slot (some selected) h =
    both_branches
      (λ found.
        found ≡ some slot → IsIn slot (slots p c) × ((slot.start_time === f.selected_start) ≡ true))
      (selected.start_time === f.selected_start) _ none
      (λ e.
        let (there, same) = find-IsIn _ (slots p c) slot e in
        (there, (&&-eq-true (slot.start_time === f.selected_start) _ same).0))
      (λ e. ground arith) h

slot_ok :
    (p : Platform) (c : Context) (f : Fields)
    → can_submit p c f ≡ true
    → has_bookable_slot p c f ≡ true
unfolding can_submit
slot_ok p c f h = (&&-eq-true (has_bookable_slot p c f) _ (&&-eq-true (is_ready p c f) _ h).1).0

-- A booking may be sent only for a slot that the server offers now, that starts when the form says, is not
-- unavailable, and is free or belongs to a series.
pub can_submit_slot :
    (p : Platform) (c : Context) (f : Fields)
    → can_submit p c f ≡ true
    → (slot : AvailabilitySlot) × (chosen_slot p c f ≡ some slot)
      × IsIn slot (slots p c)
      × ((slot.start_time === f.selected_start) ≡ true)
      × (is_unavailable slot ≡ false)
      × ((not (status_is_occupied (some slot)) || f.is_recurring) ≡ true)
unfolding can_submit chosen_slot
can_submit_slot p c f h = elim (Option-cases (chosen_slot p c f)) [
  | inl e ↦ impossible (slot_ok p c f h) (ap (is_bookable f) e)
  | inr (slot, e) ↦
      let ok = bookable p c f slot e (slot_ok p c f h) in
      let there = offered_again-IsIn p c f slot f.selected_slot e in
      (slot, e, there.0, there.1, refuted (is_unavailable slot) ok.1, ok.0)
]
