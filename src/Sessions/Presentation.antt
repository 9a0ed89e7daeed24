-- ===== src/Sessions/Presentation.antt =====
-- sessions/sessionPresentation.model.ts. `date_parse` is Date.parse, `none` for NaN, and `format` the date as
-- the user reads it. A pattern with the flag `i` compares letters without their case.
pub mod Laws
mod Tests
use g_manager.Common.{
  ℕ, String, Bool, true, false, ◌&&◌, ◌||◌, not, Option, none, some, List, [], ◌∷◌, map, ltb, leb,
  ◌==◌, if◌then◌else◌, filter, any, is_some, codes, CodePoints, lower, is_digit,
}
use g_manager.Api.Idempotency.{drop_word}

pub data SecurityEventType : Type 0 where
  activation_success activation_failure login_success login_failure : SecurityEventType
  token_refresh token_reuse session_revoked all_sessions_revoked logout : SecurityEventType

pub record SecurityEvent : Type 0 where
  pub kind : SecurityEventType
  pub occurred_at : String

-- The icon `error` is `failure` here, and `login` and `logout` are `signing_in` and `signing_out`.
pub data SessionIconKind : Type 0 where
  shield devices monitor laptop phone tablet clock alert refresh : SessionIconKind
  signing_in signing_out failure shield_x info_icon : SessionIconKind

pub data StatusTone : Type 0 where
  success danger info warning : StatusTone

pub record Presentation : Type 0 where
  pub label : String
  pub detail : String
  pub icon : SessionIconKind
  pub tone : StatusTone

abbrev pub presentation : SecurityEventType → Presentation
presentation login_success = record {
  label = "Uspešna prijava";
  detail = "Zabeležena je uspešna prijava na nalog.";
  icon = signing_in;
  tone = success;
}
presentation login_failure = record {
  label = "Neuspešna prijava";
  detail = "Zabeležen je neuspešan pokušaj prijave.";
  icon = failure;
  tone = danger;
}
presentation activation_success = record {
  label = "Aktivacija naloga";
  detail = "Nalog je aktiviran i lozinka je postavljena.";
  icon = shield;
  tone = success;
}
presentation activation_failure = record {
  label = "Neuspešna aktivacija";
  detail = "Zabeležen je neuspešan pokušaj aktivacije.";
  icon = failure;
  tone = danger;
}
presentation token_refresh = record {
  label = "Osvežavanje sesije";
  detail = "Zabeleženo je osvežavanje sesije.";
  icon = refresh;
  tone = info;
}
presentation token_reuse = record {
  label = "Otkrivena ponovna upotreba tokena";
  detail = "Zabeležena je ponovna upotreba tokena. Proverite aktivne prijave.";
  icon = alert;
  tone = warning;
}
presentation session_revoked = record {
  label = "Sesija opozvana";
  detail = "Zabeleženo je opozivanje jedne sesije.";
  icon = signing_out;
  tone = warning;
}
presentation all_sessions_revoked = record {
  label = "Sve sesije opozvane";
  detail = "Zabeleženo je opozivanje svih sesija.";
  icon = shield_x;
  tone = danger;
}
presentation logout = record {
  label = "Odjava";
  detail = "Zabeležena je odjava sa naloga.";
  icon = signing_out;
  tone = warning;
}

pub data SecurityFilter : Type 0 where
  all_events successes failures logouts changes others : SecurityFilter

abbrev pub security_filters : List SecurityFilter
security_filters = all_events ∷ successes ∷ failures ∷ logouts ∷ changes ∷ others ∷ []

abbrev pub filter_label : SecurityFilter → String
filter_label all_events = "Svi događaji"
filter_label successes = "Uspešne prijave"
filter_label failures = "Neuspešne prijave"
filter_label logouts = "Odjave"
filter_label changes = "Promene i opozivanja sesija"
filter_label others = "Ostali bezbednosni događaji"

unfoldable pub matches_security_filter : SecurityEventType → SecurityFilter → Bool
matches_security_filter event all_events = true
matches_security_filter login_success successes = true
matches_security_filter login_failure failures = true
matches_security_filter logout logouts = true
matches_security_filter token_refresh changes = true
matches_security_filter session_revoked changes = true
matches_security_filter all_sessions_revoked changes = true
matches_security_filter token_reuse others = true
matches_security_filter activation_success others = true
matches_security_filter activation_failure others = true
matches_security_filter _ _ = false

abbrev is_login : SecurityEventType → Bool
is_login login_success = true
is_login _ = false

-- `>`, false of NaN.
abbrev pub exceeds : Option ℕ → Option ℕ → Bool
exceeds (some s) (some t) = ltb t s
exceeds _ _ = false

module _ (date_parse : String → Option ℕ) where
  abbrev pub is_dated_login : SecurityEvent → Bool
  is_dated_login e = is_login e.kind && is_some (date_parse e.occurred_at)

  -- Date.parse(a) > Date.parse(b)
  abbrev pub is_later : SecurityEvent → SecurityEvent → Bool
  is_later a b = exceeds (date_parse a.occurred_at) (date_parse b.occurred_at)

  -- The step of `reduce`.
  abbrev pub later_of : Option SecurityEvent → SecurityEvent → SecurityEvent
  later_of none event = event
  later_of (some latest) event = if is_later event latest then event else latest

  unfoldable pub latest_of : Option SecurityEvent → List SecurityEvent → Option SecurityEvent
  latest_of latest [] = latest
  latest_of latest (event ∷ events) = latest_of (some (later_of latest event)) events

  unfoldable pub latest_login : List SecurityEvent → Option SecurityEvent
  unfolding latest_of
  latest_login events = latest_of none (filter is_dated_login events)

  abbrev pub session_date : (format : String → String) → String → String
  session_date format value =
      if is_some (date_parse value) then format value else "Nema dostupnog podatka"

-- The letters of the patterns, and Č.
abbrev folded : ℕ → ℕ
folded c = if c == 0x10c then 0x10d else lower c

abbrev is_word : ℕ → Bool
is_word c = is_digit c || ((leb b'a' (lower c) && leb (lower c) b'z') || c == b'_')

abbrev ends_word : Option CodePoints → Bool
ends_word none = false
ends_word (some []) = true
ends_word (some (c ∷ s)) = not (is_word c)

-- /\b(words)\b/i, from a position after a word character or not.
abbrev has_word_from : (after_word : Bool) → List String → CodePoints → Bool
has_word_from after_word words [] = false
has_word_from after_word words (c ∷ s) =
    (not after_word && any (λ w. ends_word (drop_word (codes w) (c ∷ s))) words)
    || has_word_from (is_word c) words s

abbrev pub has_word : List String → String → Bool
has_word words text = has_word_from false words (map folded (codes text))

unfoldable pub device_icon : (device_label user_agent_summary : String) → SessionIconKind
device_icon label agent =
    if has_word ("ipad" ∷ "tablet" ∷ []) agent || has_word ("tablet" ∷ []) label
    then tablet
    else if has_word ("iphone" ∷ "windows phone" ∷ []) agent
        || ((has_word ("android" ∷ []) agent && has_word ("mobile" ∷ []) agent)
            || has_word ("smartphone" ∷ "telefon" ∷ []) label)
    then phone
    else if has_word ("laptop" ∷ "notebook" ∷ []) label
    then laptop
    else if has_word ("desktop" ∷ "stoni računar" ∷ []) label
    then monitor
    else devices
