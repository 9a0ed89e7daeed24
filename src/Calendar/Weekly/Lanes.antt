-- ===== src/Calendar/Weekly/Lanes.antt =====
-- Events that are drawn in one lane do not overlap.
use mathlib.Core.List.{append-nil, append_assoc}
use g_manager.Common.{
  ℕ, zero, suc, ◌≤◌, ◌<◌, max, true, Option, none, some, List, [], ◌∷◌, ◌++◌, map, ◌≡◌, refl, ap,
  subst, inl, inr, leb, leb→le, arith, Bool-cases, length, get_or, All, Pairwise, All-append,
  All-map, All-snoc, Pairwise-snoc,
}
use g_manager.Calendar.Weekly.{
  WeekEvent, free_lane, set_end, Layout, empty_layout, widen, close_group, starts_group, later_end,
  place_in_group, place, place_all, lay_out,
}

-- The earlier of two events in one lane ends before the later one starts.
abbrev pub Apart : WeekEvent → WeekEvent → Type 0
Apart a b = a.lane ≡ b.lane → a.finish ≤ b.start

-- What `ends` says of the lane of a placed event.
abbrev pub Recorded : List ℕ → WeekEvent → Type 0
Recorded ends g = (g.lane < length ends) × (g.finish ≤ get_or ends g.lane 0)

abbrev pub EndsBy : ℕ → WeekEvent → Type 0
EndsBy t g = g.finish ≤ t

abbrev pub GroupEndsBy : Option ℕ → List WeekEvent → Type 0
GroupEndsBy none group = group ≡ []
GroupEndsBy (some t) group = All (EndsBy t) group

-- The loop's invariant, where no later event starts before t.
pub record IsLaid (t : ℕ) (l : Layout) : Type 0 where
  pub apart : Pairwise Apart (l.closed ++ l.group)
  pub past : All (EndsBy t) l.closed
  pub recorded : All (Recorded l.ends) l.group
  pub bounded : GroupEndsBy l.group_end l.group

free_lane-le : (start : ℕ) (ends : List ℕ) → free_lane start ends ≤ length ends
unfolding free_lane
free_lane-le start [] = omega arith
free_lane-le start (e ∷ ends) = ground (arith, free_lane-le start ends)

-- The lane that is found is free at the start of the event.
free_lane-is_free :
    (start : ℕ) (ends : List ℕ)
    → free_lane start ends < length ends
    → get_or ends (free_lane start ends) 0 ≤ start
unfolding free_lane
free_lane-is_free start [] h = omega arith
free_lane-is_free start (e ∷ ends) h = elim (Bool-cases (leb e start)) [
  | inl free ↦ rw (free, free_lane) (leb→le e start free)
  | inr taken ↦
      rw (taken, free_lane) (free_lane-is_free start ends (ground (arith, free_lane-le start ends)))
]

-- Ends only grow.
get_or-set_end :
    (ends : List ℕ) (lane e i : ℕ)
    → lane ≤ length ends
    → (lane < length ends → get_or ends lane 0 ≤ e)
    → i < length ends
    → (i < length (set_end ends lane e)) × (get_or ends i 0 ≤ get_or (set_end ends lane e) i 0)
unfolding set_end
get_or-set_end [] lane e i h k r = absurd (omega arith)
get_or-set_end (x ∷ ends) zero e zero h k r = (omega arith, k (omega arith))
get_or-set_end (x ∷ ends) zero e (suc i) h k r = (r, omega arith)
get_or-set_end (x ∷ ends) (suc lane) e zero h k r = (omega arith, omega arith)
get_or-set_end (x ∷ ends) (suc lane) e (suc i) h k r =
    let ih = get_or-set_end ends lane e i (omega arith) (λ p. k (omega arith)) (omega arith) in
    (omega (arith, ih.0), ih.1)

set_end_self :
    (ends : List ℕ) (lane e : ℕ)
    → lane ≤ length ends
    → (lane < length (set_end ends lane e)) × (e ≤ get_or (set_end ends lane e) lane 0)
unfolding set_end
set_end_self [] zero e h = (omega arith, omega arith)
set_end_self [] (suc lane) e h = absurd (omega arith)
set_end_self (x ∷ ends) zero e h = (omega arith, omega arith)
set_end_self (x ∷ ends) (suc lane) e h =
    let ih = set_end_self ends lane e (omega arith) in (omega (arith, ih.0), ih.1)

All-widen :
    (P : WeekEvent → Type 0) (n : ℕ) (xs ys : List WeekEvent)
    → ((g : WeekEvent) → P g → P (widen n g))
    → All P (xs ++ ys)
    → All P (xs ++ map (widen n) ys)
All-widen P n [] [] f h = tt
All-widen P n [] (y ∷ ys) f h = (f y h.0, All-widen P n [] ys f h.1)
All-widen P n (x ∷ xs) ys f h = (h.0, All-widen P n xs ys f h.1)

Pairwise-widen :
    (n : ℕ) (xs ys : List WeekEvent)
    → Pairwise Apart (xs ++ ys)
    → Pairwise Apart (xs ++ map (widen n) ys)
Pairwise-widen n [] [] h = tt
Pairwise-widen n [] (y ∷ ys) h =
    (All-widen (Apart y) n [] ys (λ g p. p) h.0, Pairwise-widen n [] ys h.1)
Pairwise-widen n (x ∷ xs) ys h =
    (All-widen (Apart x) n xs ys (λ g p. p) h.0, Pairwise-widen n xs ys h.1)

-- A group that has ended by t can be closed.
close_group-IsLaid :
    (t : ℕ) (l : Layout) → IsLaid t l → All (EndsBy t) l.group → IsLaid t (close_group l)
unfolding close_group
close_group-IsLaid t l v ended = record {
  apart = rw append-nil (Pairwise-widen (length l.ends) l.closed l.group v.apart);
  past =
      All-widen (EndsBy t) (length l.ends) l.closed l.group (λ g p. p)
        (All-append (EndsBy t) l.closed l.group v.past ended);
  recorded = tt;
  bounded = refl;
}

module _ (event : WeekEvent) (ends : List ℕ) where
  abbrev lane_of : ℕ
  lane_of = free_lane event.start ends

  free_before : lane_of < length ends → get_or ends lane_of 0 ≤ event.start
  free_before = free_lane-is_free event.start ends

  Recorded-Apart : (g : WeekEvent) → Recorded ends g → Apart g (record event { lane = lane_of })
  Recorded-Apart g r same =
      let there : get_or ends g.lane 0 ≡ get_or ends lane_of 0 = ap (λ i. get_or ends i 0) same in
      omega (arith, r.0, r.1, there, free_before (omega (arith, r.0, same)))

  Recorded-grow :
      event.start ≤ event.finish
      → (g : WeekEvent) → Recorded ends g
      → Recorded (set_end ends lane_of event.finish) g
  Recorded-grow ordered g r =
      let grown =
        get_or-set_end ends lane_of event.finish g.lane (free_lane-le event.start ends)
          (λ h. omega (arith, free_before h)) r.0 in
      (grown.0, omega (arith, r.1, grown.1))

GroupEndsBy-snoc :
    (o : Option ℕ) (group : List WeekEvent) (e : WeekEvent)
    → GroupEndsBy o group
    → All (EndsBy (later_end e.finish o)) (group ++ e ∷ [])
GroupEndsBy-snoc none group e h = rw h (omega arith, tt)
GroupEndsBy-snoc (some t) group e h =
    All-snoc (EndsBy (max t e.finish)) group e
      (All-map (EndsBy t) (EndsBy (max t e.finish)) (λ g k. omega arith) group h) (omega arith)

place_in_group-IsLaid :
    (event : WeekEvent) (l : Layout)
    → event.start ≤ event.finish
    → IsLaid event.start l
    → IsLaid event.start (place_in_group event l)
unfolding place_in_group
place_in_group-IsLaid event l ordered v =
    let placed : WeekEvent = record event { lane = lane_of event l.ends } in
    let before_it =
      All-append (λ g. Apart g placed) l.closed l.group
        (All-map (EndsBy event.start) (λ g. Apart g placed) (λ g k same. k) l.closed v.past)
        (All-map (Recorded l.ends) (λ g. Apart g placed) (Recorded-Apart event l.ends) l.group
          v.recorded) in
    record {
      apart =
          subst (Pairwise Apart) (append_assoc l.closed l.group (placed ∷ []))
            (Pairwise-snoc Apart (l.closed ++ l.group) placed v.apart before_it);
      past = v.past;
      recorded =
          All-snoc (Recorded (set_end l.ends (lane_of event l.ends) event.finish)) l.group placed
            (All-map (Recorded l.ends)
              (Recorded (set_end l.ends (lane_of event l.ends) event.finish))
              (Recorded-grow event l.ends ordered) l.group v.recorded)
            (set_end_self l.ends (lane_of event l.ends) event.finish
              (free_lane-le event.start l.ends));
      bounded = GroupEndsBy-snoc l.group_end l.group placed v.bounded;
    }

-- The bound on later starts may rise.
pub IsLaid-later : {t u : ℕ} (l : Layout) → t ≤ u → IsLaid t l → IsLaid u l
IsLaid-later {t} {u} l h v = record {
  apart = v.apart;
  past = All-map (EndsBy t) (EndsBy u) (λ g k. omega arith) l.closed v.past;
  recorded = v.recorded;
  bounded = v.bounded;
}

group_ended :
    (event : WeekEvent) (o : Option ℕ) (group : List WeekEvent)
    → starts_group event o ≡ true
    → GroupEndsBy o group
    → All (EndsBy event.start) group
group_ended event none group h b = rw b tt
group_ended event (some t) group h b =
    All-map (EndsBy t) (EndsBy event.start) (λ g k. omega (arith, leb→le t event.start h)) group b

pub place-IsLaid :
    (event : WeekEvent) (l : Layout)
    → event.start ≤ event.finish
    → IsLaid event.start l
    → IsLaid event.start (place event l)
unfolding place
place-IsLaid event l ordered v = elim (Bool-cases (starts_group event l.group_end)) [
  | inl fresh ↦
      rw (fresh, place)
        (place_in_group-IsLaid event (close_group l) ordered (
          close_group-IsLaid event.start l v
            (group_ended event l.group_end l.group fresh v.bounded)))
  | inr same ↦ rw (same, place) (place_in_group-IsLaid event l ordered v)
]

-- Sorted by start, and no event ends before it starts.
abbrev pub IsSortedFrom : ℕ → List WeekEvent → Type 0
IsSortedFrom t [] = Unit
IsSortedFrom t (e ∷ rest) = (t ≤ e.start) × (e.start ≤ e.finish) × IsSortedFrom e.start rest

place_all-Apart :
    (t : ℕ) (sorted : List WeekEvent) (l : Layout)
    → IsSortedFrom t sorted
    → IsLaid t l
    → Pairwise Apart ((place_all sorted l).closed ++ (place_all sorted l).group)
unfolding place_all
place_all-Apart t [] l h v = v.apart
place_all-Apart t (e ∷ rest) l h v =
    place_all-Apart e.start rest (place e l) h.2 (place-IsLaid e l h.1 (IsLaid-later l h.0 v))

pub lay_out-Apart :
    (sorted : List WeekEvent) → IsSortedFrom 0 sorted → Pairwise Apart (lay_out sorted)
unfolding lay_out close_group
lay_out-Apart sorted h =
    let l = place_all sorted empty_layout in
    Pairwise-widen (length l.ends) l.closed l.group (
      place_all-Apart 0 sorted empty_layout h
        (record { apart = tt; past = tt; recorded = tt; bounded = refl }))
