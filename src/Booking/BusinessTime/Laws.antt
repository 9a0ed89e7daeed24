-- ===== src/Booking/BusinessTime/Laws.antt =====
-- An instant that is found for a local time shows that time, and every error says something.
use g_manager.Common.{
  ℕ, zero, suc, ◌+◌, ◌-◌, String, true, Option, none, some, ◌==◌, ◌≡◌, refl, arith, ◌⊎◌, inl, inr,
  codes, eq_iff, each_branch,
}
use g_manager.Common.Json.{is_truthy_text}
use g_manager.Booking.BusinessTime.{
  Zone, business_instant_to_local, business_local_to_instant, is_value, checked_instant,
  search_instant, represented_utc, has_shape, desired_utc, missing_time,
}

-- What a result says: an instant that shows the value, or a message that is not empty.
abbrev pub Answers : Zone → (value : String) → String ⊎ String → Type 0
Answers z value (inl instant) = business_instant_to_local z instant ≡ some value
Answers z value (inr message) = is_truthy_text message ≡ true

is_value-eq : (value : String) (o : Option String) → is_value value o ≡ true → o ≡ some value
is_value-eq value none h = ground arith
is_value-eq value (some local) h = ground (arith, eq_iff local value)

checked_instant-Answers :
    (z : Zone) (value : String) (candidate : ℕ)
    → Answers z value (checked_instant z value candidate)
unfolding checked_instant
checked_instant-Answers z value candidate =
    each_branch (Answers z value)
      (is_value value (business_instant_to_local z (z.to_iso candidate))) (inl (z.to_iso candidate))
      (inr missing_time)
      (λ e. is_value-eq value (business_instant_to_local z (z.to_iso candidate)) e) (λ e. refl)

search_instant-Answers :
    (z : Zone) (value : String) (desired attempts candidate : ℕ)
    → Answers z value (search_instant z value desired attempts candidate)
unfolding search_instant
search_instant-Answers z value desired zero candidate = refl
search_instant-Answers z value desired (suc attempts) candidate =
    let next = candidate + desired - represented_utc z candidate in
    each_branch (Answers z value) (represented_utc z candidate == desired)
      (checked_instant z value candidate) (search_instant z value desired attempts next)
      (λ e. checked_instant-Answers z value candidate)
      (λ e. search_instant-Answers z value desired attempts next)

-- A local time is converted to an instant that shows exactly that time, in whatever zone, or refused with a
-- message that is not empty.
pub business_local_to_instant-Answers :
    (z : Zone) (value : String) → Answers z value (business_local_to_instant z value)
unfolding business_local_to_instant
business_local_to_instant-Answers z value =
    each_branch (Answers z value) (has_shape (codes "0000-00-00T00:00") (codes value))
      (search_instant z value (desired_utc z (codes value)) 4 (desired_utc z (codes value))) _
      (λ e.
        search_instant-Answers z value (desired_utc z (codes value)) 4
          (desired_utc z (codes value)))
      (λ e. refl)
