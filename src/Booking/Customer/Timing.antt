-- ===== src/Booking/Customer/Timing.antt =====
-- The times that are typed in. `duration` is negative or a fraction in the source only where there is an
-- error of the time; it is 0 here then.
use Prim.Native.String.{◌++◌}
use g_manager.Common.{
  ℕ, ◌-◌, ◌/◌, ◌%◌, String, Bool, false, ◌&&◌, ◌||◌, not, Option, none, some, [], ◌∷◌, ltb, leb,
  ◌==◌, if◌then◌else◌, codes, CodePoints, decimal, inl, inr, ◌⊎◌,
}
use g_manager.Common.Json.{is_truthy_text}
use g_manager.Booking.BusinessTime.{business_local_to_instant}
use g_manager.Booking.Types.{BookingOptions}
use g_manager.Booking.Customer.{Platform, Fields, Context}
use g_manager.Booking.Customer.View.{
  rules, minimum, chosen_duration, variable_duration, default_duration,
}

abbrev digit_between : ℕ → ℕ → ℕ → Bool
digit_between low high c = leb low c && leb c high

-- /^([01]\d|2[0-3]):[0-5]\d$/, on code points.
abbrev is_time : CodePoints → Bool
is_time (a ∷ b ∷ c ∷ d ∷ e ∷ []) =
    ((digit_between b'0' b'1' a && digit_between b'0' b'9' b)
      || (a == b'2' && digit_between b'0' b'3' b))
    && (c == b':' && (digit_between b'0' b'5' d && digit_between b'0' b'9' e))
is_time _ = false

unfoldable pub valid_time : String → Bool
valid_time value = is_time (codes value)

pub record Timing : Type 0 where
  pub manual_start : String
  pub time_error : String
  pub duration : ℕ

-- (end - start) / 60000, if that is a whole number above 0.
abbrev pub whole_minutes : Option ℕ → Option ℕ → Option ℕ
whole_minutes (some start) (some end) =
    if ltb start end && ((end - start) % 60000) == 0 then some ((end - start) / 60000) else none
whole_minutes _ _ = none

unfoldable pub range_error : (low high : ℕ) → String
unfolding decimal
range_error low high =
    "Trajanje mora biti od " ++ decimal low ++ " do " ++ decimal high ++ " minuta."

unfoldable pub checked_duration :
    Context → BookingOptions → (manual_start : String) → Option ℕ → Timing
unfolding range_error
checked_duration c r manual_start none = record {
  manual_start = manual_start;
  time_error = "Kraj mora biti posle početka. Za termin preko ponoći promenite datum završetka.";
  duration = 0;
}
checked_duration c r manual_start (some d) = record {
  manual_start = manual_start;
  time_error =
      if ltb d (minimum c) || ltb r.maximum_duration_minutes d
      then range_error (minimum c) r.maximum_duration_minutes
      else "";
  duration = d;
}

-- After the conversion of the end.
unfoldable pub with_end :
    Platform → Context → BookingOptions → Fields → (start : String) → String ⊎ String → Timing
unfolding checked_duration
with_end p c r f start (inr message) = record {
  manual_start = start;
  time_error = message;
  duration = chosen_duration c f;
}
with_end p c r f start (inl end) =
    checked_duration c r start (whole_minutes (p.zone.date_parse start) (p.zone.date_parse end))

-- After the conversion of the start.
unfoldable pub with_start : Platform → Context → BookingOptions → Fields → String ⊎ String → Timing
unfolding with_end
with_start p c r f (inr message) = record {
  manual_start = "";
  time_error = message;
  duration = chosen_duration c f;
}
with_start p c r f (inl start) =
    with_end p c r f start (business_local_to_instant p.zone (f.end_date ++ "T" ++ f.to_time))

abbrev pub is_complete : Fields → Bool
unfolding valid_time
is_complete f =
    is_truthy_text f.date
    && (valid_time f.from_time && (valid_time f.to_time && is_truthy_text f.end_date))

unfoldable pub manual_timing : Platform → Context → BookingOptions → Fields → Timing
unfolding valid_time with_start
manual_timing p c r f =
    if not (is_complete f)
    then record {
      manual_start = "";
      time_error = "Unesite početak i kraj u formatu HH:mm.";
      duration = chosen_duration c f;
    }
    else with_start p c r f (business_local_to_instant p.zone (f.date ++ "T" ++ f.from_time))

abbrev pub untimed : Context → Fields → Timing
untimed c f = record { manual_start = ""; time_error = ""; duration = chosen_duration c f }

unfoldable pub timing : Platform → Context → Fields → Timing
unfolding manual_timing
timing p c f = elim (rules c) [
  | none ↦ untimed c f
  | some r ↦
      if r.variable_duration && (is_truthy_text f.from_time || is_truthy_text f.to_time)
      then manual_timing p c r f
      else untimed c f
]

-- `timeError` is not empty.
abbrev pub has_time_error : Platform → Context → Fields → Bool
unfolding timing
has_time_error p c f = is_truthy_text (timing p c f).time_error

abbrev pub duration_minutes : Platform → Context → Fields → Option ℕ
unfolding timing
duration_minutes p c f =
    if variable_duration c
    then some (if has_time_error p c f then default_duration c f else (timing p c f).duration)
    else none
