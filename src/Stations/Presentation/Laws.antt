-- ===== src/Stations/Presentation/Laws.antt =====
-- The warnings of a station, and the order of versions.
use g_manager.Common.{
  ℕ, zero, suc, String, Bool, true, false, ◌||◌, not, Option, none, some, List, [], ◌≡◌, refl, sym,
  subst, ◌++◌ as append, arith, ◌===◌, eq_iff, ||-eq-false, includes,
}
use g_manager.Stations.Presentation.{
  LiveStation, StationView, connection_status, needs_attention, is_lock_pending, is_unacknowledged,
  live_warnings, station_warnings, problematic_station, is_live_problem, is_offline, is_waiting,
  lacks_profile, warn, newer_from, attention_statuses,
}

-- Of two versions one at most is newer.
newer_from-asym :
    (left i : ℕ) (a b : List ℕ) → newer_from left i a b ≡ true → newer_from left i b a ≡ false
unfolding newer_from
newer_from-asym zero i a b h = refl
newer_from-asym (suc left) i a b h = ground (arith, h, newer_from-asym left (suc i) a b)

other_text : (a b : String) → (a === b) ≡ false → (b === a) ≡ false
other_text a b h = ground (arith, eq_iff a b, eq_iff b a, h)

-- None of six tests holds.
none_of :
    (a b c d e f : Bool)
    → (a || (b || (c || (d || (e || (f || false)))))) ≡ false
    → (c ≡ false) × (d ≡ false)
none_of a b c d e f h = ground arith

quiet_live :
    (s : StationView) (live : LiveStation)
    → needs_attention live ≡ false
    → is_lock_pending live ≡ false
    → live_warnings s (some live) ≡ []
unfolding needs_attention live_warnings
quiet_live s live h k =
    let rest = (||-eq-false _ _ (||-eq-false _ _ h).1).1 in
    let stale = (||-eq-false live.stale_heartbeat _ rest).0 in
    let last =
      (||-eq-false (includes attention_statuses live.status) (is_unacknowledged live)
        (||-eq-false live.stale_heartbeat _ rest).1) in
    let (locked, expired) = none_of _ _ _ _ _ _ last.0 in
    rw
      (
        live_warnings,
        stale,
        other_text "EXPIRED" live.status expired,
        other_text "LOCK_PENDING" live.status locked,
        k,
        last.1,
      )
      refl

kept : (b : Bool) → not b ≡ false → b ≡ true
kept b h = ground arith

quiet_station :
    (s : StationView)
    → not (s.operational_status === "AVAILABLE") ≡ false
    → ((s.operational_status === "MAINTENANCE") ≡ false)
      × ((s.operational_status === "RETIRED") ≡ false)
quiet_station s h =
    let same : s.operational_status ≡ "AVAILABLE" =
      (eq_iff s.operational_status "AVAILABLE").0 (kept _ h) in
    subst (λ t. ((t === "MAINTENANCE") ≡ false) × ((t === "RETIRED") ≡ false)) (sym same)
      (refl, refl)

-- No test holds, so nothing is said.
all_quiet :
    (a b c d e : Bool) (live : List String) (v w x y z : String)
    → a ≡ false
    → b ≡ false
    → live ≡ []
    → c ≡ false
    → d ≡ false
    → e ≡ false
    → append
        (warn a v)
        (append (warn b w) (append live (append (warn c x) (append (warn d y) (warn e z)))))
      ≡ []
all_quiet a b c d e live v w x y z ha hb hl hc hd he = rw (ha, hb, hl, hc, hd, he) refl

quiet_option :
    (s : StationView) (o : Option LiveStation) → is_live_problem o ≡ false → live_warnings s o ≡ []
unfolding live_warnings
quiet_option s none h = refl
quiet_option s (some live) h =
    let parts = ||-eq-false (needs_attention live) (is_lock_pending live) h in
    quiet_live s live parts.0 parts.1

-- A station that is not among the problematic ones has no warnings.
pub station_warnings_none :
    (s : StationView) → problematic_station s ≡ false → station_warnings s ≡ []
unfolding problematic_station station_warnings
station_warnings_none s h =
    let (status, rest) = ||-eq-false (not (s.operational_status === "AVAILABLE")) _ h in
    let (connection, others) =
      ||-eq-false (is_offline (connection_status s) || is_waiting (connection_status s)) _ rest in
    let (off, wait) =
      ||-eq-false (is_offline (connection_status s)) (is_waiting (connection_status s))
        connection in
    let (live, profile) = ||-eq-false (is_live_problem s.live) (lacks_profile s) others in
    let (maintained, retired) = quiet_station s status in
    all_quiet _ _ _ _ _ (live_warnings s s.live) _ _ _ _ _ off wait (quiet_option s s.live live)
      profile maintained retired
