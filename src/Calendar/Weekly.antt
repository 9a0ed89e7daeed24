-- ===== src/Calendar/Weekly.antt =====
-- calendar/weeklyModel.ts: `weeklyEvents`. An instant is the number of
-- milliseconds since 1970, so `Date.parse` of a reservation's times has been made; `groupEnd` of an
-- empty group is -Infinity, here `none`. `before a b` says that `localeCompare` does not put the id b in
-- front of the id a.
pub mod Lanes
pub mod Widths
pub mod Day
pub mod Cover
pub mod Tests
use g_manager.Common.{
  ℕ, zero, suc, ◌+◌, ◌-◌, ◌*◌, ◌/◌, ◌≤◌, ◌<◌, min, max, String, Bool, true, false, ◌&&◌, Option,
  none, some, List, [], ◌∷◌, ◌++◌, map, ltb, leb, ◌==◌, if◌then◌else◌, filter, length, set, find,
}

-- The parts of a CalendarReservation that are read here.
pub record Reservation : Type 0 where
  pub id : String
  pub start_time : ℕ
  pub end_time : ℕ

pub record WeekEvent : Type 0 where
  pub item : Reservation
  pub start : ℕ
  pub finish : ℕ
  pub lane : ℕ
  pub columns : ℕ

module _ (before : String → String → Bool) where
  -- The comparison of the sort: start, then the later end, then the id.
  abbrev pub precedes : WeekEvent → WeekEvent → Bool
  precedes a b =
      if a.start == b.start
      then if a.finish == b.finish then before a.item.id b.item.id else ltb b.finish a.finish
      else ltb a.start b.start

  -- Array.prototype.sort is stable.
  unfoldable pub insert_event : WeekEvent → List WeekEvent → List WeekEvent
  insert_event e [] = e ∷ []
  insert_event e (f ∷ rest) = if precedes e f then e ∷ f ∷ rest else f ∷ insert_event e rest

  unfoldable pub sort_events : List WeekEvent → List WeekEvent
  sort_events [] = []
  sort_events (e ∷ rest) = insert_event e (sort_events rest)

-- The events of the day, cut to it.
abbrev pub clipped : ℕ → ℕ → Reservation → WeekEvent
clipped from to item = record {
  item = item;
  start = max from item.start_time;
  finish = min to item.end_time;
  lane = 0;
  columns = 1;
}

abbrev pub visible : ℕ → ℕ → Reservation → Bool
visible from to item = ltb item.start_time to && ltb from item.end_time

-- `ends.findIndex(end => end <= start)`, or the length where there is none.
unfoldable pub free_lane : ℕ → List ℕ → ℕ
free_lane start [] = 0
free_lane start (e ∷ ends) = if leb e start then 0 else suc (free_lane start ends)

-- `ends[lane] = end`, for a lane up to the length.
unfoldable pub set_end : List ℕ → ℕ → ℕ → List ℕ
set_end [] lane e = e ∷ []
set_end (x ∷ ends) zero e = e ∷ ends
set_end (x ∷ ends) (suc lane) e = x ∷ set_end ends lane e

-- The variables of the loop: the events placed in earlier groups, and `group`, `ends` and `groupEnd`.
pub record Layout : Type 0 where
  pub closed : List WeekEvent
  pub group : List WeekEvent
  pub ends : List ℕ
  pub group_end : Option ℕ

abbrev pub empty_layout : Layout
empty_layout = record { closed = []; group = []; ends = []; group_end = none }

abbrev pub widen : ℕ → WeekEvent → WeekEvent
widen n event = record event { columns = n }

-- `finish`, and the group set aside.
unfoldable pub close_group : Layout → Layout
close_group l = record {
  closed = l.closed ++ map (widen (length l.ends)) l.group;
  group = [];
  ends = [];
  group_end = none;
}

abbrev pub starts_group : WeekEvent → Option ℕ → Bool
starts_group event none = true
starts_group event (some end_of_group) = leb end_of_group event.start

abbrev pub later_end : ℕ → Option ℕ → ℕ
later_end finish none = finish
later_end finish (some end_of_group) = max end_of_group finish

-- The body of the loop behind the test for a new group.
unfoldable pub place_in_group : WeekEvent → Layout → Layout
unfolding free_lane set_end
place_in_group event l =
    let lane = free_lane event.start l.ends in
    record {
      closed = l.closed;
      group = l.group ++ record event { lane = lane } ∷ [];
      ends = set_end l.ends lane event.finish;
      group_end = some (later_end event.finish l.group_end);
    }

unfoldable pub place : WeekEvent → Layout → Layout
unfolding place_in_group close_group
place event l = place_in_group event (if starts_group event l.group_end then close_group l else l)

unfoldable pub place_all : List WeekEvent → Layout → Layout
unfolding place
place_all [] l = l
place_all (event ∷ rest) l = place_all rest (place event l)

-- The loop over the sorted events, and the last `finish`.
unfoldable pub lay_out : List WeekEvent → List WeekEvent
unfolding place_all close_group
lay_out sorted = (close_group (place_all sorted empty_layout)).closed

unfoldable pub weekly_events : (String → String → Bool) → List Reservation → ℕ → ℕ → List WeekEvent
unfolding lay_out sort_events insert_event
weekly_events before events from to =
    lay_out (sort_events before (map (clipped from to) (filter (visible from to) events)))
