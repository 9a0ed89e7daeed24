-- ===== src/Booking/BusinessTime.antt =====
-- reservations/dateTime.ts: businessInstantToLocal and businessLocalToInstant. What Intl.DateTimeFormat and
-- Date give for the zone of the business is a parameter. Instants are milliseconds since 1970, and earlier
-- ones are outside. The functions that format a date for display are left out.
pub mod Laws
use Prim.Native.String.{◌++◌}
use g_manager.Common.{
  ℕ, zero, suc, ◌+◌, ◌-◌, ◌*◌, String, Bool, true, false, ◌&&◌, Option, none, some, List, [], ◌∷◌,
  ◌===◌, ◌==◌, if◌then◌else◌, ◌⊎◌, inl, inr, CodePoints, codes, is_digit,
}

-- The parts that the formatter gives, as texts.
pub record LocalParts : Type 0 where
  pub year : String
  pub month : String
  pub day : String
  pub hour : String
  pub minute : String

-- The formatter; Date.UTC, for months that count from 1; toISOString; and Date.parse, `none` for NaN.
pub record Zone : Type 0 where
  pub local_parts : ℕ → LocalParts
  pub utc : (year month day hour minute : ℕ) → ℕ
  pub to_iso : ℕ → String
  pub date_parse : String → Option ℕ

abbrev pub local_text : LocalParts → String
local_text p = p.year ++ "-" ++ p.month ++ "-" ++ p.day ++ "T" ++ p.hour ++ ":" ++ p.minute

-- `none` where the formatter throws, since the date is not valid.
unfoldable pub business_instant_to_local : Zone → String → Option String
business_instant_to_local z value = elim (z.date_parse value) [
  | none ↦ none
  | some t ↦ some (local_text (z.local_parts t))
]

-- A shape: digits, and characters that stand for themselves.
abbrev pub has_shape : (shape : CodePoints) → CodePoints → Bool
has_shape [] [] = true
has_shape (p ∷ shape) (c ∷ s) =
    let rest = has_shape shape s in (if p == b'0' then is_digit c else p == c) && rest
has_shape _ _ = false

-- Number of a text of digits.
abbrev pub number_from : ℕ → CodePoints → ℕ
number_from n [] = n
number_from n (c ∷ s) = number_from (n * 10 + (c - b'0')) s

abbrev pub part : (from length : ℕ) → CodePoints → CodePoints
part from length [] = []
part zero zero (c ∷ s) = []
part zero (suc length) (c ∷ s) = c ∷ part zero length s
part (suc from) length (c ∷ s) = part from length s

-- Date.UTC of the five numbers of a text like "2026-05-04T10:00", and of the parts of an instant.
abbrev pub desired_utc : Zone → CodePoints → ℕ
desired_utc z s =
    z.utc (number_from 0 (part 0 4 s)) (number_from 0 (part 5 2 s)) (number_from 0 (part 8 2 s))
      (number_from 0 (part 11 2 s)) (number_from 0 (part 14 2 s))

abbrev pub represented_utc : Zone → ℕ → ℕ
represented_utc z candidate =
    let p = z.local_parts candidate in
    z.utc (number_from 0 (codes p.year)) (number_from 0 (codes p.month))
      (number_from 0 (codes p.day)) (number_from 0 (codes p.hour)) (number_from 0 (codes p.minute))

abbrev pub missing_time : String
missing_time =
    "Izabrano lokalno vreme ne postoji ili datum nije validan. Proverite prelazak na letnje računanje vremena."

abbrev pub is_value : String → Option String → Bool
is_value value none = false
is_value value (some local) = local === value

-- The instant of a candidate that represents the wanted numbers, or the message of the error. What toISOString
-- gives is always a valid date.
unfoldable pub checked_instant : Zone → (value : String) → (candidate : ℕ) → String ⊎ String
unfolding business_instant_to_local
checked_instant z value candidate =
    if is_value value (business_instant_to_local z (z.to_iso candidate))
    then inl (z.to_iso candidate)
    else inr missing_time

-- The loop, with the attempts that are left.
unfoldable pub search_instant :
    Zone → (value : String) → (desired attempts candidate : ℕ) → String ⊎ String
unfolding checked_instant
search_instant z value desired zero candidate = inr missing_time
search_instant z value desired (suc attempts) candidate =
    let represented = represented_utc z candidate in
    let rest = search_instant z value desired attempts (candidate + desired - represented) in
    if represented == desired then checked_instant z value candidate else rest

-- The instant, or the message of the error that is thrown.
unfoldable pub business_local_to_instant : Zone → String → String ⊎ String
unfolding search_instant
business_local_to_instant z value =
    if has_shape (codes "0000-00-00T00:00") (codes value)
    then search_instant z value (desired_utc z (codes value)) 4 (desired_utc z (codes value))
    else inr "Datum i vreme nisu validni."
