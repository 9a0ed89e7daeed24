-- ===== src/Notification/Preferences/Channels.antt =====
-- The preferences that the page works on, and the state of a channel over a group of them.
use g_manager.Common.{
  Bool, true, false, not, ◌&&◌, List, [], ◌∷◌, ◌≡◌, inl, inr, refl, ap, arith, any, all, is_empty,
  filter, Bool-cases, includes,
}
use g_manager.Notification.Preferences.{
  NotificationPreference, NotificationChannel, enabled, normalize_preference, active_preferences,
  ChannelState, on, off, mixed, channel_state, notification_definitions, same,
}

abbrev is_known : NotificationPreference → Bool
is_known value = includes notification_definitions value.type_name

normalize_preference_twice :
    (v : NotificationPreference)
    → normalize_preference (normalize_preference v) ≡ normalize_preference v
unfolding normalize_preference
normalize_preference_twice v = ground arith

normalize_preference_known :
    (v : NotificationPreference) → is_known (normalize_preference v) ≡ is_known v
unfolding normalize_preference
normalize_preference_known v = ground arith

-- The preferences that the page works on are of known types with both channels on where they are
-- mandatory: selecting and normalizing once more changes nothing.
active_preferences-active_preferences :
    (values : List NotificationPreference)
    → active_preferences (active_preferences values) ≡ active_preferences values
unfolding active_preferences
active_preferences-active_preferences [] = refl
active_preferences-active_preferences (v ∷ vs) = elim (Bool-cases (is_known v)) [
  | inl e ↦
      rw (e, normalize_preference_known v, e, normalize_preference_twice v)
        (ap (λ xs. normalize_preference v ∷ xs) (active_preferences-active_preferences vs))
  | inr e ↦ rw e (active_preferences-active_preferences vs)
]

module _ (channel : NotificationChannel) where
  -- The channel is on, or off, for some preference that is not mandatory.
  abbrev pub some_is : Bool → List NotificationPreference → Bool
  some_is b items = any (λ v. not v.mandatory && same b (enabled channel v)) items

  -- The state of a channel over a group, from whether it is on for some editable preference and whether
  -- it is off for some.
  abbrev pub state_of : (some_on some_off : Bool) → ChannelState
  state_of true false = on
  state_of true true = mixed
  state_of false _ = off

  abbrev editable : List NotificationPreference → List NotificationPreference
  editable items = filter (λ v. not v.mandatory) items

  all_off :
      (items : List NotificationPreference)
      → all (λ v. not (enabled channel v)) (editable items) ≡ not (some_is true items)
  all_off [] = refl
  all_off (v ∷ vs) = ground (arith, all_off vs)

  all_on :
      (items : List NotificationPreference)
      → all (enabled channel) (editable items) ≡ not (some_is false items)
  all_on [] = refl
  all_on (v ∷ vs) = ground (arith, all_on vs)

  none_editable :
      (items : List NotificationPreference)
      → is_empty (editable items) ≡ true
      → some_is true items ≡ false
  none_editable [] h = refl
  none_editable (v ∷ vs) h = ground (arith, none_editable vs)

  -- A group's channel is on when it is on for some and off for no editable preference, mixed when it is
  -- on for some and off for some, and off otherwise, also when nothing is editable.
  channel_state_lem :
      (items : List NotificationPreference)
      → channel_state items channel ≡ state_of (some_is true items) (some_is false items)
  unfolding channel_state
  channel_state_lem items = ground (arith, all_off items, all_on items, none_editable items)
