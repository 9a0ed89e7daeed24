-- ===== src/Calendar/Weekly/Tests.antt =====
-- A day with three reservations, two of which overlap.
use g_manager.Common.{
  ℕ, ◌≤◌, ◌<◌, String, Bool, true, List, [], ◌∷◌, ◌≡◌, refl, arith, All, Pairwise,
}
use g_manager.Calendar.Weekly.{Reservation, WeekEvent, weekly_events}
use g_manager.Calendar.Weekly.Lanes.{Apart}
use g_manager.Calendar.Weekly.Widths.{InColumns}
use g_manager.Calendar.Weekly.Day.{weekly_events-Apart, weekly_events-InColumns}
use g_manager.Calendar.Weekly.Cover.{drawn_at, running_at, IsIn, weekly_events_cover}

abbrev booking : String → ℕ → ℕ → Reservation
booking id start finish = record { id = id; start_time = start; end_time = finish }

abbrev bookings : List Reservation
bookings = booking "c" 300 400 ∷ booking "a" 50 200 ∷ booking "b" 150 250 ∷ []

abbrev in_order : String → String → Bool
in_order a b = true

abbrev drawn : String → ℕ → ℕ → ℕ → ℕ → ℕ → ℕ → WeekEvent
drawn id s e start finish lane columns = record {
  item = booking id s e;
  start = start;
  finish = finish;
  lane = lane;
  columns = columns;
}

weekly_events_test :
    weekly_events in_order bookings 100 350
    ≡ drawn "a" 50 200 100 200 0 2
      ∷ drawn "b" 150 250 150 250 1 2
      ∷ drawn "c" 300 400 300 350 0 1
      ∷ []
unfolding weekly_events
weekly_events_test = refl

weekly_events-Apart_example : Pairwise Apart (weekly_events in_order bookings 100 350)
weekly_events-Apart_example =
    weekly_events-Apart in_order bookings 100 350 (omega arith) (omega arith)

weekly_events-InColumns_example : All InColumns (weekly_events in_order bookings 100 350)
weekly_events-InColumns_example =
    weekly_events-InColumns in_order bookings 100 350 (omega arith) (omega arith)

weekly_events_cover_example :
    ((id : String) (t : ℕ)
      → 100 ≤ t
      → t < 350
      → drawn_at id t (weekly_events in_order bookings 100 350) ≡ running_at id t bookings)
    × All (IsIn 100 350) (weekly_events in_order bookings 100 350)
weekly_events_cover_example =
    weekly_events_cover in_order bookings 100 350 (omega arith)
      (omega arith, (omega arith, (omega arith, tt)))

drawn_once : drawn_at "b" 160 (weekly_events in_order bookings 100 350) ≡ 1
unfolding weekly_events
drawn_once = refl
