-- ===== src/Calendar/Weekly/Widths.antt =====
-- The lanes and widths of a day's layout, which keeps the sorted events but for both.
use mathlib.Core.List.{append_assoc, append-nil, map-append}
use g_manager.Common.{
  ℕ, ◌≤◌, ◌<◌, String, Bool, List, [], ◌∷◌, ◌++◌, map, ◌≡◌, refl, sym, ap, ◌∙◌, inl, inr, arith,
  Bool-cases, length, All, All-append,
}
use g_manager.Calendar.Weekly.{
  WeekEvent, insert_event, sort_events, Layout, empty_layout, widen, close_group, starts_group,
  place_in_group, place, place_all, lay_out,
}
use g_manager.Calendar.Weekly.Lanes.{Recorded, IsLaid, IsSortedFrom, place-IsLaid, IsLaid-later}

abbrev pub InColumns : WeekEvent → Type 0
InColumns e = e.lane < e.columns

abbrev AllClosed : Layout → Type 0
AllClosed l = All InColumns l.closed

widen-InColumns :
    (ends : List ℕ) (group : List WeekEvent)
    → All (Recorded ends) group
    → All InColumns (map (widen (length ends)) group)
widen-InColumns ends [] h = tt
widen-InColumns ends (g ∷ group) h = (h.0.0, widen-InColumns ends group h.1)

close_group-InColumns :
    (l : Layout) → All (Recorded l.ends) l.group → AllClosed l → AllClosed (close_group l)
unfolding close_group
close_group-InColumns l r h =
    All-append InColumns l.closed (map (widen (length l.ends)) l.group) h
      (widen-InColumns l.ends l.group r)

place-InColumns :
    (event : WeekEvent) (l : Layout)
    → All (Recorded l.ends) l.group
    → AllClosed l
    → AllClosed (place event l)
unfolding place place_in_group
place-InColumns event l r h = ground (arith, close_group-InColumns l r h)

place_all-InColumns :
    (t : ℕ) (sorted : List WeekEvent) (l : Layout)
    → IsSortedFrom t sorted
    → IsLaid t l
    → AllClosed l
    → All InColumns (close_group (place_all sorted l)).closed
unfolding place_all
place_all-InColumns t [] l h v c = close_group-InColumns l v.recorded c
place_all-InColumns t (e ∷ rest) l h v c =
    place_all-InColumns e.start rest (place e l) h.2 (place-IsLaid e l h.1 (IsLaid-later l h.0 v))
      (place-InColumns e l v.recorded c)

pub lay_out-InColumns :
    (sorted : List WeekEvent) → IsSortedFrom 0 sorted → All InColumns (lay_out sorted)
unfolding lay_out
lay_out-InColumns sorted h =
    place_all-InColumns 0 sorted empty_layout h
      (record { apart = tt; past = tt; recorded = tt; bounded = refl }) tt

-- An event with what the layout writes taken off.
abbrev pub bare : WeekEvent → WeekEvent
bare e = record e { lane = 0; columns = 1 }

bare-widen : (n : ℕ) (group : List WeekEvent) → map bare (map (widen n) group) ≡ map bare group
bare-widen n [] = refl
bare-widen n (g ∷ group) = ap (λ r. bare g ∷ r) (bare-widen n group)

abbrev shown : Layout → List WeekEvent
shown l = map bare (l.closed ++ l.group)

shown-close_group : (l : Layout) → shown (close_group l) ≡ shown l
unfolding close_group
shown-close_group l = simp (append-nil, map-append, bare-widen)

shown-place_in_group :
    (e : WeekEvent) (l : Layout) → shown (place_in_group e l) ≡ shown l ++ bare e ∷ []
unfolding place_in_group
shown-place_in_group e l = simp (map-append, append_assoc)

shown-place : (e : WeekEvent) (l : Layout) → shown (place e l) ≡ shown l ++ bare e ∷ []
unfolding place
shown-place e l = elim (Bool-cases (starts_group e l.group_end)) [
  | inl fresh ↦
      rw (fresh, place)
        (shown-place_in_group e (close_group l)
          ∙ ap (λ xs. xs ++ bare e ∷ []) (shown-close_group l))
  | inr same ↦ rw (same, place) (shown-place_in_group e l)
]

shown-place_all :
    (sorted : List WeekEvent) (l : Layout) → shown (place_all sorted l) ≡ shown l ++ map bare sorted
unfolding place_all
shown-place_all [] l = sym (append-nil (shown l))
shown-place_all (e ∷ rest) l =
    shown-place_all rest (place e l)
    ∙ ap (λ xs. xs ++ map bare rest) (shown-place e l)
    ∙ append_assoc (shown l) (bare e ∷ []) (map bare rest)

pub lay_out-bare : (sorted : List WeekEvent) → map bare (lay_out sorted) ≡ map bare sorted
unfolding lay_out
lay_out-bare sorted =
    simp (map-append, bare-widen) (rw (← map-append) (shown-place_all sorted empty_layout))

module _ (before : String → String → Bool) where
  insert_event-IsSortedFrom :
      (t : ℕ) (e : WeekEvent) (xs : List WeekEvent)
      → t ≤ e.start
      → e.start ≤ e.finish
      → IsSortedFrom t xs
      → IsSortedFrom t (insert_event before e xs)
  unfolding insert_event
  insert_event-IsSortedFrom t e [] h o s = (h, o, tt)
  insert_event-IsSortedFrom t e (f ∷ xs) h o s =
      ground (arith, insert_event-IsSortedFrom f.start e xs)

  pub sort_events-IsSortedFrom :
      (xs : List WeekEvent)
      → All (λ e. e.start ≤ e.finish) xs
      → IsSortedFrom 0 (sort_events before xs)
  unfolding sort_events
  sort_events-IsSortedFrom [] h = tt
  sort_events-IsSortedFrom (e ∷ xs) h =
      insert_event-IsSortedFrom 0 e (sort_events before xs) (omega arith) h.0
        (sort_events-IsSortedFrom xs h.1)
