-- ===== src/Calendar/Weekly/Cover.antt =====
-- What the events of a day show of the reservations.
use g_manager.Common.{
  ℕ, ◌+◌, ◌≤◌, ◌<◌, String, Bool, ◌&&◌, List, [], ◌∷◌, map, ltb, leb, ◌===◌, ◌≡◌, refl, ap, sym,
  subst, ◌∙◌, arith, Bool-cases, inl, inr, if◌then◌else◌, filter, All,
}
use g_manager.Calendar.Weekly.{
  Reservation, WeekEvent, precedes, insert_event, sort_events, clipped, visible, lay_out,
  weekly_events,
}
use g_manager.Calendar.Weekly.Widths.{bare, lay_out-bare}

-- How many of the events with an id are drawn at an instant.
abbrev pub drawn_at : String → ℕ → List WeekEvent → ℕ
drawn_at id t [] = 0
drawn_at id t (e ∷ es) =
    (if e.item.id === id && (leb e.start t && ltb t e.finish) then 1 else 0) + drawn_at id t es

-- How many of the reservations with an id have begun at an instant and not ended.
abbrev pub running_at : String → ℕ → List Reservation → ℕ
running_at id t [] = 0
running_at id t (r ∷ rs) =
    (if r.id === id && (leb r.start_time t && ltb t r.end_time) then 1 else 0) + running_at id t rs

-- The reservation takes time.
abbrev pub IsTimed : Reservation → Type 0
IsTimed r = r.start_time < r.end_time

-- The event takes time, and lies in the day.
abbrev pub IsIn : ℕ → ℕ → WeekEvent → Type 0
IsIn from to e = (from ≤ e.start) × (e.start < e.finish) × (e.finish ≤ to)

module _ (id : String) (t : ℕ) where
  drawn_at-bare : (es : List WeekEvent) → drawn_at id t (map bare es) ≡ drawn_at id t es
  drawn_at-bare [] = refl
  drawn_at-bare (e ∷ es) = rw (drawn_at-bare es) refl

  drawn_at-insert_event :
      (before : String → String → Bool) (e : WeekEvent) (es : List WeekEvent)
      → drawn_at id t (insert_event before e es) ≡ drawn_at id t (e ∷ es)
  unfolding insert_event
  drawn_at-insert_event before e [] = refl
  drawn_at-insert_event before e (f ∷ es) = elim (Bool-cases (precedes before e f)) [
    | inl first ↦ rw (first, insert_event) refl
    | inr later ↦ rw (later, insert_event) (rw (drawn_at-insert_event before e es) (omega arith))
  ]

  drawn_at-sort_events :
      (before : String → String → Bool) (es : List WeekEvent)
      → drawn_at id t (sort_events before es) ≡ drawn_at id t es
  unfolding sort_events
  drawn_at-sort_events before [] = refl
  drawn_at-sort_events before (e ∷ es) =
      drawn_at-insert_event before e (sort_events before es)
      ∙ rw (drawn_at-sort_events before es) refl

  drawn_at-clipped :
      (from to : ℕ) (rs : List Reservation)
      → from ≤ t
      → t < to
      → drawn_at id t (map (clipped from to) (filter (visible from to) rs)) ≡ running_at id t rs
  drawn_at-clipped from to [] h k = refl
  drawn_at-clipped from to (r ∷ rs) h k =
      let rest = drawn_at-clipped from to rs h k in
      elim (Bool-cases (visible from to r)) [
        | inl seen ↦ rw (seen, rest) (ground arith)
        | inr unseen ↦ rw (unseen, rest) (ground arith)
      ]

module _ (from to : ℕ) where
  clipped-IsIn :
      (rs : List Reservation)
      → from < to
      → All IsTimed rs
      → All (IsIn from to) (map (clipped from to) (filter (visible from to) rs))
  clipped-IsIn [] h o = tt
  clipped-IsIn (r ∷ rs) h o = elim (Bool-cases (visible from to r)) [
    | inl seen ↦ rw seen (ground arith, clipped-IsIn rs h o.1)
    | inr unseen ↦ rw unseen (clipped-IsIn rs h o.1)
  ]

  insert_event-IsIn :
      (before : String → String → Bool) (e : WeekEvent) (es : List WeekEvent)
      → IsIn from to e
      → All (IsIn from to) es
      → All (IsIn from to) (insert_event before e es)
  unfolding insert_event
  insert_event-IsIn before e [] h k = (h, tt)
  insert_event-IsIn before e (f ∷ es) h k = elim (Bool-cases (precedes before e f)) [
    | inl first ↦ rw (first, insert_event) (h, k)
    | inr later ↦ rw (later, insert_event) (k.0, insert_event-IsIn before e es h k.1)
  ]

  sort_events-IsIn :
      (before : String → String → Bool) (es : List WeekEvent)
      → All (IsIn from to) es
      → All (IsIn from to) (sort_events before es)
  unfolding sort_events
  sort_events-IsIn before [] k = tt
  sort_events-IsIn before (e ∷ es) k =
      insert_event-IsIn before e (sort_events before es) k.0 (sort_events-IsIn before es k.1)

  -- Lane and width are not among it.
  bare-IsIn : (es : List WeekEvent) → All (IsIn from to) es → All (IsIn from to) (map bare es)
  bare-IsIn [] h = tt
  bare-IsIn (e ∷ es) h = (h.0, bare-IsIn es h.1)

  IsIn-bare : (es : List WeekEvent) → All (IsIn from to) (map bare es) → All (IsIn from to) es
  IsIn-bare [] h = tt
  IsIn-bare (e ∷ es) h = (h.0, IsIn-bare es h.1)

-- On a day that ends after it begins, with reservations that end after they start: at every instant of the
-- day, as many events of an id are drawn as reservations of that id have begun and not ended; and every
-- event takes time and lies in the day.
pub weekly_events_cover :
    (before : String → String → Bool) (events : List Reservation) (from to : ℕ)
    → from < to
    → All IsTimed events
    → ((id : String) (t : ℕ)
        → from ≤ t
        → t < to
        → drawn_at id t (weekly_events before events from to) ≡ running_at id t events)
      × All (IsIn from to) (weekly_events before events from to)
unfolding weekly_events
weekly_events_cover before events from to day timed =
    let cut = map (clipped from to) (filter (visible from to) events) in
    let sorted = sort_events before cut in
    (
      λ id t h k.
          sym (drawn_at-bare id t (lay_out sorted))
          ∙ ap (drawn_at id t) (lay_out-bare sorted)
          ∙ drawn_at-bare id t sorted
          ∙ drawn_at-sort_events id t before cut
          ∙ drawn_at-clipped id t from to events h k,
      IsIn-bare from to (lay_out sorted) (
          subst (All (IsIn from to)) (sym (lay_out-bare sorted)) (
            bare-IsIn from to sorted
              (sort_events-IsIn from to before cut (clipped-IsIn from to events day timed)))),
    )
