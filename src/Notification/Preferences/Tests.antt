-- ===== src/Notification/Preferences/Tests.antt =====
-- The preferences of a user who turns one channel off.
use g_manager.Common.{String, Bool, true, false, [], ◌∷◌, ◌≡◌, refl, List, arith, lookup, insert}
use g_manager.Notification.Preferences.{
  NotificationPreference, changed_preferences, merge_preferences, in_app, email, off, mixed,
  channel_state,
}
use g_manager.Notification.Preferences.Laws.{merge_preferences-changed_preferences}

abbrev preference : String → Bool → Bool → Bool → NotificationPreference
preference type_name mandatory a b = record {
  type_name = type_name;
  mandatory = mandatory;
  in_app_enabled = a;
  email_enabled = b;
}

abbrev before : List NotificationPreference
before =
    preference "SECURITY_PASSWORD_CHANGED" true true true
    ∷ preference "ORDER_CREATED" false true false
    ∷ preference "REPORT_COMPLETED" false false false
    ∷ []

abbrev after : List NotificationPreference
after =
    preference "SECURITY_PASSWORD_CHANGED" true true true
    ∷ preference "ORDER_CREATED" false true true
    ∷ preference "REPORT_COMPLETED" false false false
    ∷ []

one_change : changed_preferences before after ≡ preference "ORDER_CREATED" false true true ∷ []
unfolding changed_preferences lookup insert
one_change = refl

states : (channel_state after in_app ≡ mixed) × (channel_state before email ≡ off)
unfolding channel_state
states = (refl, refl)

merge_preferences-changed_preferences_example :
    merge_preferences before (changed_preferences before after) ≡ after
merge_preferences-changed_preferences_example =
    merge_preferences-changed_preferences before after (ground arith) (ground arith) (ground arith)
