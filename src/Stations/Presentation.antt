-- ===== src/Stations/Presentation.antt =====
-- stations/stationPresentation.model.ts, and `needsAttention` of gaming/presentation.ts. A status is its
-- text. The parts of a version are exact numbers; the source's are, below 2 ^ 53.
pub mod Laws
mod Tests
use Prim.Native.String.{◌++◌}
use g_manager.Common.{
  ℕ, zero, suc, ◌+◌, ◌*◌, ◌-◌, String, Bool, true, false, ◌&&◌, ◌||◌, not, Option, none, some, List,
  [], ◌∷◌, map, ltb, leb, ◌==◌, ◌===◌, if◌then◌else◌, codes, CodePoints, split_on, is_digit, all,
  is_empty, length, get_or, includes, is_some, decimal, ◌++◌ as append,
}
use g_manager.Api.Client.{given}

-- /^\d+\.\d+\.\d+(\.\d+)?$/
abbrev pub is_numeric : String → Bool
is_numeric version =
    let parts = split_on b'.' (codes version) in
    all (λ part. not (is_empty part) && all is_digit part) parts
    && (leb 3 (length parts) && leb (length parts) 4)

abbrev number_from : ℕ → CodePoints → ℕ
number_from n [] = n
number_from n (c ∷ s) = number_from (n * 10 + (c - b'0')) s

abbrev pub parts_of : String → List ℕ
parts_of version = map (number_from 0) (split_on b'.' (codes version))

-- The loop, from the part `i` on, for `left` parts.
unfoldable pub newer_from : (left i : ℕ) (target current : List ℕ) → Bool
newer_from zero i target current = false
newer_from (suc left) i target current =
    let later = newer_from left (suc i) target current in
    if get_or target i 0 == get_or current i 0
    then later
    else ltb (get_or current i 0) (get_or target i 0)

unfoldable pub is_newer_client_version : (available installed : Option String) → Bool
unfolding newer_from
is_newer_client_version none installed = false
is_newer_client_version (some available) none = is_numeric available
is_newer_client_version (some available) (some installed) =
    is_numeric available
    && (not (is_numeric installed) || newer_from 4 0 (parts_of available) (parts_of installed))

-- What a page knows of the live state of a station.
pub record LiveStation : Type 0 where
  pub status : String
  pub stale_heartbeat : Bool
  pub enforcement_status : String
  pub command_sequence : Option ℕ
  pub command_acknowledged_at : Option String
  pub client_error_code : Option String
  pub update_status : Option String

pub record StationView : Type 0 where
  pub live : Option LiveStation
  pub station_profile_id : Option String
  pub application_profile_id : Option String
  pub operational_status : String
  pub effective_status : String
  pub client_enabled : Bool
  pub last_heartbeat_at : Option String

pub data ConnectionKey : Type 0 where
  manual waiting offline connected unknown : ConnectionKey

unfoldable pub connection_status : StationView → ConnectionKey
connection_status s =
    if not s.client_enabled
    then manual
    else if not (is_some (given s.last_heartbeat_at))
    then waiting
    else elim s.live [
      | none ↦ if s.effective_status === "OFFLINE" then offline else unknown
      | some live ↦ if live.stale_heartbeat || live.status === "OFFLINE" then offline else connected
    ]

abbrev pub connection_label : ConnectionKey → String
connection_label manual = "Ručni režim"
connection_label waiting = "Čeka prvi kontakt"
connection_label offline = "Bez veze"
connection_label connected = "Povezan"
connection_label unknown = "Veza nije potvrđena"

-- A number is falsy when it is 0.
abbrev given_number : Option ℕ → Option ℕ
given_number none = none
given_number (some n) = if n == 0 then none else some n

abbrev pub is_update_failed : Option String → Bool
is_update_failed o = elim o [ none ↦ false | some t ↦ t === "FAILED" ]

-- commandSequence && !commandAcknowledgedAt
abbrev pub is_unacknowledged : LiveStation → Bool
is_unacknowledged live =
    is_some (given_number live.command_sequence)
    && not (is_some (given live.command_acknowledged_at))

abbrev pub attention_statuses : List String
attention_statuses =
    "CLIENT_ERROR" ∷ "OFFLINE" ∷ "LOCK_PENDING" ∷ "EXPIRED" ∷ "PREPARATION_REQUIRED"
    ∷ "TRANSFER_PENDING" ∷ []

unfoldable pub needs_attention : LiveStation → Bool
needs_attention live =
    is_some (given live.client_error_code)
    || (is_update_failed live.update_status
        || (live.stale_heartbeat
            || (includes attention_statuses live.status || is_unacknowledged live)))

abbrev pub is_lock_pending : LiveStation → Bool
is_lock_pending live = live.enforcement_status === "LOCK_PENDING"

-- if (test) warnings.push(text)
abbrev pub warn : Bool → String → List String
warn test text = if test then text ∷ [] else []

abbrev pub is_offline : ConnectionKey → Bool
is_offline offline = true
is_offline _ = false

abbrev pub is_waiting : ConnectionKey → Bool
is_waiting waiting = true
is_waiting _ = false

abbrev pub lacks_profile : StationView → Bool
lacks_profile s =
    not (is_some (given s.station_profile_id)) || not (is_some (given s.application_profile_id))

unfoldable pub sequence_text : Option ℕ → String
unfolding decimal
sequence_text none = ""
sequence_text (some n) = decimal n

unfoldable pub live_warnings : StationView → Option LiveStation → List String
live_warnings s none = []
live_warnings s (some live) =
    append
      (warn (live.stale_heartbeat && is_some (given s.last_heartbeat_at)) "Heartbeat je zastareo.")
      (append
        (warn (live.status === "EXPIRED") "Sesija je istekla. Proverite lokalno stanje računara.")
        (append
          (warn (live.status === "LOCK_PENDING" || is_lock_pending live)
            "Zaključavanje čeka potvrdu. Nova sesija nije bezbedna dok se stanje ne potvrdi.")
          (warn (is_unacknowledged live)
            ("Komanda #" ++ sequence_text live.command_sequence ++ " čeka potvrdu klijenta."))))

unfoldable pub station_warnings : StationView → List String
unfolding connection_status live_warnings
station_warnings s =
    append
      (warn (is_offline (connection_status s))
        "Gaming Client nije povezan. Proverite računar i mrežu.")
      (append
        (warn (is_waiting (connection_status s)) "Gaming Client još nije poslao prvi heartbeat.")
        (append (live_warnings s s.live) (
          append
            (warn (lacks_profile s) "Konfiguracija stanice ili profil aplikacija nisu podešeni.")
            (append (warn (s.operational_status === "MAINTENANCE") "Stanica je na održavanju.")
              (warn (s.operational_status === "RETIRED") "Stanica je trajno van upotrebe.")))))

abbrev pub is_live_problem : Option LiveStation → Bool
is_live_problem none = false
is_live_problem (some live) = needs_attention live || is_lock_pending live

unfoldable pub problematic_station : StationView → Bool
unfolding connection_status needs_attention
problematic_station s =
    not (s.operational_status === "AVAILABLE")
    || ((is_offline (connection_status s) || is_waiting (connection_status s))
        || (is_live_problem s.live || lacks_profile s))
