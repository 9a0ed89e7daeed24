-- ===== src/Notification/Preferences.antt =====
-- notification/notificationPreferences.ts: which notifications a user gets on which channel, and the
-- preferences that a draft changes. A `Map` is a dictionary in the order in which it was filled.
pub mod Laws
pub mod Channels
pub mod Tests
use g_manager.Common.{
  String, Bool, true, false, not, ◌&&◌, ◌||◌, Option, none, some, List, [], ◌∷◌, map, ◌===◌,
  if◌then◌else◌, all, filter, is_empty, includes, Dict, lookup, insert,
}

pub record NotificationPreference : Type 0 where
  pub type_name : String
  pub mandatory : Bool
  pub in_app_enabled : Bool
  pub email_enabled : Bool

pub data NotificationChannel : Type 0 where
  in_app email : NotificationChannel

abbrev pub enabled : NotificationChannel → NotificationPreference → Bool
enabled in_app v = v.in_app_enabled
enabled email v = v.email_enabled

-- The keys of `notificationDefinitions`.
abbrev pub notification_definitions : List String
notification_definitions =
    "SECURITY_SESSION_STARTED" ∷ "SECURITY_PASSWORD_CHANGED" ∷ "RESERVATION_CREATED"
    ∷ "RESERVATION_STATUS_CHANGED" ∷ "ORDER_CREATED" ∷ "ORDER_STATUS_CHANGED" ∷ "WAITLIST_OFFERED"
    ∷ "WAITLIST_CANCELLED" ∷ "REPORT_COMPLETED" ∷ []

unfoldable pub normalize_preference : NotificationPreference → NotificationPreference
normalize_preference value =
    if value.mandatory then record value { in_app_enabled = true; email_enabled = true } else value

unfoldable pub active_preferences : List NotificationPreference → List NotificationPreference
unfolding normalize_preference
active_preferences values =
    map normalize_preference
      (filter (λ value. includes notification_definitions value.type_name) values)

-- `new Map(values.map(value => [value.type, value]))`, on top of what the map holds.
abbrev pub by_type :
    List NotificationPreference → Dict NotificationPreference → Dict NotificationPreference
by_type [] m = m
by_type (v ∷ vs) m = by_type vs (insert v.type_name v m)

abbrev pub same : Bool → Bool → Bool
same true b = b
same false b = not b

abbrev pub is_changed : Dict NotificationPreference → NotificationPreference → Bool
is_changed baseline value = not value.mandatory && (elim (lookup value.type_name baseline) [
  | none ↦ false
  | some previous ↦
      not (same value.in_app_enabled previous.in_app_enabled)
      || not (same value.email_enabled previous.email_enabled)
])

unfoldable pub changed_preferences :
    (saved draft : List NotificationPreference) → List NotificationPreference
changed_preferences saved draft = filter (is_changed (by_type saved [])) draft

abbrev pub confirmed_or :
    Dict NotificationPreference → NotificationPreference → NotificationPreference
confirmed_or results value = elim (lookup value.type_name results) [ none ↦ value | some v ↦ v ]

unfoldable pub merge_preferences :
    (current confirmed : List NotificationPreference) → List NotificationPreference
merge_preferences current confirmed = map (confirmed_or (by_type confirmed [])) current

pub data ChannelState : Type 0 where
  on off mixed : ChannelState

unfoldable pub channel_state : List NotificationPreference → NotificationChannel → ChannelState
channel_state items channel =
    let editable = filter (λ value. not value.mandatory) items in
    if is_empty editable || all (λ value. not (enabled channel value)) editable
    then off
    else if all (enabled channel) editable
    then on
    else mixed
