-- ===== src/Calendar/Weekly/Day.antt =====
-- What `weeklyEvents` returns for a day.

use g_manager.Common.{
  ℕ, ◌≤◌, String, Bool, List, [], ◌∷◌, map, arith, Bool-cases, inl, inr, filter, All, Pairwise,
}
use g_manager.Calendar.Weekly.{Reservation, sort_events, clipped, visible, weekly_events}
use g_manager.Calendar.Weekly.Lanes.{Apart, IsSortedFrom, lay_out-Apart}
use g_manager.Calendar.Weekly.Widths.{InColumns, lay_out-InColumns, sort_events-IsSortedFrom}

-- A reservation does not end before it starts.
abbrev pub IsOrdered : Reservation → Type 0
IsOrdered r = r.start_time ≤ r.end_time

clipped-ordered :
    (from to : ℕ) (rs : List Reservation)
    → from ≤ to
    → All IsOrdered rs
    → All (λ e. e.start ≤ e.finish) (map (clipped from to) (filter (visible from to) rs))
clipped-ordered from to [] h o = tt
clipped-ordered from to (r ∷ rs) h o = elim (Bool-cases (visible from to r)) [
  | inl seen ↦ rw seen (ground arith, clipped-ordered from to rs h o.1)
  | inr unseen ↦ rw unseen (clipped-ordered from to rs h o.1)
]

module _ (before : String → String → Bool) (events : List Reservation) (from to : ℕ) where
  module _ (day : from ≤ to) (ordered : All IsOrdered events) where
    is_sorted :
        IsSortedFrom 0
          (sort_events before (map (clipped from to) (filter (visible from to) events)))
    is_sorted =
        sort_events-IsSortedFrom before (map (clipped from to) (filter (visible from to) events))
          (clipped-ordered from to events day ordered)

    -- On a day that does not end before it begins, with reservations that do not end before they start:
    -- of two events that are drawn in one lane, the earlier one ends before the later one starts.
    pub weekly_events-Apart : Pairwise Apart (weekly_events before events from to)
    unfolding weekly_events
    weekly_events-Apart = lay_out-Apart _ is_sorted

    -- On a day that does not end before it begins, with reservations that do not end before they start:
    -- every event's lane is one of the columns that its group is divided into.
    pub weekly_events-InColumns : All InColumns (weekly_events before events from to)
    unfolding weekly_events
    weekly_events-InColumns = lay_out-InColumns _ is_sorted
