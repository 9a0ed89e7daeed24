-- ===== src/Sessions/Presentation/Laws.antt =====
-- The filters divide the events, and the latest login is one and the latest.
use g_manager.Common.{
  ℕ, String, Bool, true, false, ◌&&◌, Option, none, some, List, [], ◌∷◌, ◌≡◌, refl, sym, ap, subst,
  All-map, ◌∙◌, impossible, ◌≤◌, arith, ltb, filter, length, All, each_branch, both_branches,
  Option-cases, inl, inr, IsIn, IsIn-here, IsIn-there, IsIn-cons,
}
use g_manager.Sessions.Presentation.{
  SecurityEventType, activation_success, activation_failure, login_success, login_failure,
  token_refresh, token_reuse, session_revoked, all_sessions_revoked, logout, SecurityEvent,
  security_filters, matches_security_filter, is_dated_login, is_later, exceeds, later_of, latest_of,
  latest_login,
}

-- Every event is shown by exactly two filters, that of all events and one other.
matches_security_filter_twice :
    (event : SecurityEventType)
    → length (filter (matches_security_filter event) security_filters) ≡ 2
unfolding matches_security_filter
matches_security_filter_twice activation_success = refl
matches_security_filter_twice activation_failure = refl
matches_security_filter_twice login_success = refl
matches_security_filter_twice login_failure = refl
matches_security_filter_twice token_refresh = refl
matches_security_filter_twice token_reuse = refl
matches_security_filter_twice session_revoked = refl
matches_security_filter_twice all_sessions_revoked = refl
matches_security_filter_twice logout = refl

second_false_and : (a : Bool) → (a && false) ≡ false
second_false_and true = refl
second_false_and false = refl

le_not_later : (s t : ℕ) → s ≤ t → ltb t s ≡ false
le_not_later s t h = ground arith

later_le : (s t : ℕ) → ltb s t ≡ true → s ≤ t
later_le s t h = ground arith

not_later_le : (s t : ℕ) → ltb s t ≡ false → t ≤ s
not_later_le s t h = ground arith

abbrev time_of : Option ℕ → ℕ
time_of none = 0
time_of (some t) = t

module _ (date_parse : String → Option ℕ) where
  -- The time of a dated event, and 0 without one.
  abbrev time : SecurityEvent → ℕ
  time e = time_of (date_parse e.occurred_at)

  abbrev IsDated : SecurityEvent → Type 0
  IsDated e = is_dated_login date_parse e ≡ true

  -- A login whose time no event of the list exceeds.
  abbrev pub IsLatest : List SecurityEvent → SecurityEvent → Type 0
  IsLatest events latest =
      (is_dated_login date_parse latest ≡ true)
      × All (λ e. is_dated_login date_parse e ≡ true → is_later date_parse e latest ≡ false) events

  dated_time : (e : SecurityEvent) → IsDated e → (date_parse e.occurred_at ≡ some (time e))
  dated_time e h = elim (Option-cases (date_parse e.occurred_at)) [
    | inl n ↦ impossible h (rw n (second_false_and _))
    | inr (t, n) ↦ n ∙ ap (λ o. some (time_of o)) (sym n)
  ]

  is_later_dated :
      (a b : SecurityEvent)
      → IsDated a
      → IsDated b
      → is_later date_parse a b ≡ ltb (time b) (time a)
  is_later_dated a b ha hb =
      ap (λ o. exceeds o (date_parse b.occurred_at)) (dated_time a ha)
      ∙ ap (λ o. exceeds (some (time a)) o) (dated_time b hb)

  -- The later of two dated events.
  later_of-IsDated :
      (a b : SecurityEvent)
      → IsDated a
      → IsDated b
      → let l = later_of date_parse (some a) b in IsDated l × (time a ≤ time l) × (time b ≤ time l)
  later_of-IsDated a b ha hb =
      each_branch (λ l. IsDated l × (time a ≤ time l) × (time b ≤ time l)) (is_later date_parse b a)
        b a
        (λ e. (hb, later_le (time a) (time b) (sym (is_later_dated b a hb ha) ∙ e), omega arith))
        (λ e.
          (ha, omega arith, not_later_le (time a) (time b) (sym (is_later_dated b a hb ha) ∙ e)))

  later_of-IsIn :
      (a b l : SecurityEvent) (events : List SecurityEvent)
      → IsIn l (later_of date_parse (some a) b ∷ events)
      → IsIn l (a ∷ b ∷ events)
  later_of-IsIn a b l events h = elim (IsIn-cons l (later_of date_parse (some a) b) events h) [
    | inl e ↦
        subst (λ x. IsIn x (a ∷ b ∷ events)) (sym e)
          (both_branches (λ x. IsIn x (a ∷ b ∷ events)) (is_later date_parse b a) b a
            (IsIn-there b a (b ∷ events) (IsIn-here b events)) (IsIn-here a (b ∷ events)))
    | inr k ↦ IsIn-there l a (b ∷ events) (IsIn-there l b events k)
  ]

  latest_of-IsDated :
      (a : SecurityEvent) (events : List SecurityEvent)
      → IsDated a
      → All IsDated events
      → (l : SecurityEvent) × (latest_of date_parse (some a) events ≡ some l)
        × IsIn l (a ∷ events)
        × IsDated l
        × (time a ≤ time l)
        × All (λ e. time e ≤ time l) events
  unfolding latest_of
  latest_of-IsDated a [] ha h = (a, refl, IsIn-here a [], ha, omega arith, tt)
  latest_of-IsDated a (b ∷ events) ha h =
      let (dated, ca, cb) = later_of-IsDated a b ha h.0 in
      let (l, e, there, hl, step, rest) =
        latest_of-IsDated (later_of date_parse (some a) b) events dated h.1 in
      (
        l,
        e,
        later_of-IsIn a b l events there,
        hl,
        omega (arith, ca, step),
        (omega (arith, cb, step), rest),
      )

  filter-IsDated :
      (events : List SecurityEvent) → All IsDated (filter (is_dated_login date_parse) events)
  filter-IsDated [] = tt
  filter-IsDated (e ∷ events) =
      each_branch (All IsDated) (is_dated_login date_parse e) _ _ (λ h. (h, filter-IsDated events))
        (λ h. filter-IsDated events)

  -- What holds of the events that are kept.
  filter-All :
      (P : SecurityEvent → Type 0) (events : List SecurityEvent)
      → All P (filter (is_dated_login date_parse) events)
      → All (λ e. is_dated_login date_parse e ≡ true → P e) events
  filter-All P [] = λ h. tt
  filter-All P (e ∷ events) =
      each_branch
        (λ kept. All P kept → All (λ x. is_dated_login date_parse x ≡ true → P x) (e ∷ events))
        (is_dated_login date_parse e) (e ∷ filter (is_dated_login date_parse) events)
        (filter (is_dated_login date_parse) events) (λ t h. ((λ d. h.0), filter-All P events h.1))
        (λ t h. ((λ d. impossible d t), filter-All P events h))

  -- A login without a date is nobody's latest, and among those with one the latest is found.
  abbrev pub Finds : List SecurityEvent → List SecurityEvent → Option SecurityEvent → Type 0
  Finds events kept none = kept ≡ []
  Finds events kept (some l) = IsIn l kept × IsLatest events l

  latest_of_kept :
      (events kept : List SecurityEvent)
      → All IsDated kept
      → ((P : SecurityEvent → Type 0)
          → All P kept
          → All (λ x. is_dated_login date_parse x ≡ true → P x) events)
      → Finds events kept (latest_of date_parse none kept)
  unfolding latest_of
  latest_of_kept events [] h f = refl
  latest_of_kept events (e ∷ kept) h f =
      let (l, found, there, dated, first, rest) = latest_of-IsDated e kept h.0 h.1 in
      subst (Finds events (e ∷ kept)) (sym found) (
        there,
        (
          dated,
          All-map (λ x. is_dated_login date_parse x ≡ true → time x ≤ time l)
              (λ x. is_dated_login date_parse x ≡ true → is_later date_parse x l ≡ false)
              (λ x le d. is_later_dated x l d dated ∙ le_not_later (time x) (time l) (le d)) events
              (f (λ x. time x ≤ time l) (first, rest)),
        ),
      )

  -- What is found is a successful login with a valid date, and no other one is later; nothing is found only if
  -- there is none.
  pub latest_login-IsLatest :
      (events : List SecurityEvent)
      → Finds events (filter (is_dated_login date_parse) events) (latest_login date_parse events)
  unfolding latest_login
  latest_login-IsLatest events =
      latest_of_kept events (filter (is_dated_login date_parse) events) (filter-IsDated events)
        (λ P h. filter-All P events h)
