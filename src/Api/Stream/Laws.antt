-- ===== src/Api/Stream/Laws.antt =====
-- The stream comes back after an outage, with bounded delays.
use g_manager.Common.{
  ℕ, zero, suc, ◌≤◌, min, Bool, true, false, not, ◌&&◌, ◌||◌, Option, List, [], ◌∷◌, ◌++◌, ◌==◌,
  ◌≡◌, refl, sym, ◌∙◌, ap, arith, length, is_some, All, String, Bool-cases, Option-cases, inl, inr,
  length-append, All-snoc,
}
use mathlib.Core.List.{append_assoc}
use g_manager.Api.Client.{given}
use g_manager.Api.Stream.{
  Thrown, unavailable, type_error, cancelled, other, dom, Fetched, response, failed, Moment, Round,
  Connection, is_retryable, delay_of, wait, caught, on_stream, on_response, on_fetched, round,
  rounds, at_moment,
}

-- The loop goes on, and there is a token.
abbrev pub is_running : Connection → Bool
is_running s = not s.over && (not s.aborted && is_some (given s.auth.access_token))

-- At the moment the stream is wanted still, by the same user with a token.
abbrev pub is_wanted : Moment → Bool
is_wanted m = not m.aborted && is_some (given m.auth.access_token)

abbrev pub is_down : Fetched → Bool
is_down (failed thrown) = is_retryable thrown
is_down (response a) = not (a.status == 403) && (not (a.status == 401) && not (a.ok && a.stream))

-- The server cannot be reached, or gives no stream, and nobody stops the loop.
abbrev pub is_outage : Round → Bool
is_outage r =
    is_wanted r.after_delay && (not r.online || (not r.after_fetch.aborted && is_down r.fetched))

-- The server answers with a stream.
abbrev pub gives_stream : Fetched → Bool
gives_stream (failed thrown) = false
gives_stream (response a) = not (a.status == 403) && (not (a.status == 401) && (a.ok && a.stream))

abbrev pub is_back : Round → Bool
is_back r = r.online && (not r.after_fetch.aborted && gives_stream r.fetched)

-- The delay before the next pass is never below two seconds and never above thirty.
delay_of_bounds : (n : ℕ) → (2000 ≤ delay_of (suc n)) × (delay_of (suc n) ≤ 30000)
unfolding delay_of
delay_of_bounds zero = omega arith
delay_of_bounds (suc zero) = omega arith
delay_of_bounds (suc (suc zero)) = omega arith
delay_of_bounds (suc (suc (suc zero))) = omega arith
delay_of_bounds (suc (suc (suc (suc n)))) =
    let e : min (suc (suc (suc (suc (suc n))))) 5 ≡ 5 = omega arith in rw e (omega arith)

caught_retryable :
    (m : Moment) (thrown : Thrown) (s : Connection)
    → is_retryable thrown ≡ true
    → s.aborted ≡ false
    → caught m thrown s ≡ wait m s
unfolding caught
caught_retryable m cancelled s h a = ground arith
caught_retryable m other s h a = ground arith
caught_retryable m unavailable s h a = rw a refl
caught_retryable m type_error s h a = rw a refl
caught_retryable m (dom name) s h a = rw (a, h) refl

abbrev pub Waits : Round → Connection → Connection → Type 0
Waits r s t =
    (is_running t ≡ true)
    × (t.connected ≡ s.connected)
    × (t.retried ≡ suc s.retried)
    × (t.attempt ≡ suc s.attempt)
    × (t.delays ≡ delay_of (suc s.attempt) ∷ s.delays)

wait-Waits :
    (r : Round) (s t : Connection)
    → is_running s ≡ true
    → is_wanted r.after_delay ≡ true
    → t.over ≡ false
    → t.aborted ≡ false
    → (t.connected ≡ s.connected)
      × (t.retried ≡ s.retried)
      × (t.attempt ≡ s.attempt)
      × (t.delays ≡ s.delays)
    → Waits r s (wait r.after_delay t)
unfolding wait
wait-Waits r s t h w o a e =
    (ground arith, ground arith, ground arith, ground arith, ground (arith, e.2, e.3))

on_fetched_down :
    (used : Option String) (f : Fetched) (r : Round) (t : Connection)
    → is_down f ≡ true
    → t.aborted ≡ false
    → on_fetched used f r t ≡ wait r.after_delay t
unfolding on_fetched on_response
on_fetched_down used (failed thrown) r t d a = caught_retryable r.after_delay thrown t d a
on_fetched_down used (response x) r t d a =
    let down : on_response used x r t ≡ caught r.after_delay unavailable t = ground arith in
    down ∙ caught_retryable r.after_delay unavailable t refl a

pub round_online :
    (r : Round) (s : Connection)
    → is_running s ≡ true
    → r.online ≡ true
    → round r s ≡ on_fetched s.auth.access_token r.fetched r (at_moment r.after_fetch s)
unfolding round
round_online r s h o = ground arith

round_offline :
    (r : Round) (s : Connection)
    → is_running s ≡ true
    → r.online ≡ false
    → round r s ≡ caught r.after_delay unavailable s
unfolding round
round_offline r s h o = ground arith

round-Waits :
    (r : Round) (s : Connection) → is_running s ≡ true → is_outage r ≡ true → Waits r s (round r s)
round-Waits r s h o = elim (Bool-cases r.online) [
  | inr off ↦
      rw (round_offline r s h off, caught_retryable r.after_delay unavailable s refl (ground arith))
        (wait-Waits r s s h (ground arith) (ground arith) (ground arith) (refl, refl, refl, refl))
  | inl there ↦
      let t = at_moment r.after_fetch s in
      rw
        (
          round_online r s h there,
          on_fetched_down s.auth.access_token r.fetched r t (ground arith) (ground arith),
        )
        (wait-Waits r s t h (ground arith) (ground arith) (ground arith) (refl, refl, refl, refl))
]

caught_connected :
    (m : Moment) (thrown : Thrown) (s : Connection) → (caught m thrown s).connected ≡ s.connected
unfolding caught wait
caught_connected m cancelled s = refl
caught_connected m _ s = ground arith

on_stream_connected : (r : Round) (s : Connection) → (on_stream r s).connected ≡ suc s.connected
unfolding on_stream wait
on_stream_connected r s = elim (Option-cases r.consumed) [
  | inl e ↦ rw (on_stream, e) (ground arith)
  | inr (thrown, e) ↦ rw (on_stream, e) (caught_connected r.after_delay thrown _)
]

on_fetched_back :
    (used : Option String) (f : Fetched) (r : Round) (t : Connection)
    → gives_stream f ≡ true
    → t.aborted ≡ false
    → on_fetched used f r t ≡ on_stream r t
unfolding on_fetched on_response
on_fetched_back used (failed thrown) r t d a = ground arith
on_fetched_back used (response x) r t d a = ground arith

-- A pass in which the server answers with a stream connects.
round_connects :
    (r : Round) (s : Connection)
    → is_running s ≡ true
    → is_back r ≡ true
    → (round r s).connected ≡ suc s.connected
round_connects r s h b =
    let t = at_moment r.after_fetch s in
    rw
      (
        round_online r s h (ground arith),
        on_fetched_back s.auth.access_token r.fetched r t (ground arith) (ground arith),
      )
      (on_stream_connected r t)

abbrev pub IsDelay : ℕ → Type 0
IsDelay d = (2000 ≤ d) × (d ≤ 30000)

-- After an outage of any length, in which the server cannot be reached or gives no stream and the same
-- user keeps a token, the loop still runs, has waited between two and thirty seconds after each pass,
-- and connects in the first pass in which the server answers with a stream.
pub rounds_reconnect :
    (down : List Round) (up : Round) (s : Connection)
    → is_running s ≡ true
    → All (λ r. is_outage r ≡ true) down
    → is_back up ≡ true
    → let t = rounds down s in
      (is_running t ≡ true)
      × ((ds : List ℕ) × (t.delays ≡ ds ++ s.delays) × (length ds ≡ length down) × All IsDelay ds)
      × ((rounds (down ++ up ∷ []) s).connected ≡ suc s.connected)
unfolding rounds
rounds_reconnect [] up s h o b = (h, ([], refl, refl, tt), round_connects up s h b)
rounds_reconnect (r ∷ rest) up s h o b =
    let w = round-Waits r s h o.0 in
    let (running, (ds, e, n, bounds), connects) = rounds_reconnect rest up (round r s) w.0 o.1 b in
    (
      running,
      (
        ds ++ delay_of (suc s.attempt) ∷ [],
        e
            ∙ (ap (λ xs. ds ++ xs) w.4
                ∙ sym (append_assoc ds (delay_of (suc s.attempt) ∷ []) s.delays)),
        rw (length-append ds (delay_of (suc s.attempt) ∷ [])) (omega (arith, n)),
        All-snoc IsDelay ds (delay_of (suc s.attempt)) bounds (delay_of_bounds s.attempt),
      ),
      connects ∙ ap suc w.1,
    )
