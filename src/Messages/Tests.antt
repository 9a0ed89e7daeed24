-- ===== src/Messages/Tests.antt =====
-- Every message of the tables, and a conflict.
use g_manager.Common.{String, Bool, true, none, some, ◌≡◌, refl, ◌===◌, all, Dict, lookup}
use Prim.Native.String.{◌++◌}
use g_manager.Api.Http.{Cause, failure}
use g_manager.Api.Errors.Laws.{advice, id_note}
use g_manager.Messages.Booking.{reservation_api_error_message}
use g_manager.Messages.Waitlist.{translations, waitlist_error}
use g_manager.Messages.Settings.{translated, settings_error}
use g_manager.Messages.Station.{station_messages, station_error}
use g_manager.Messages.Orders.{order_messages, order_error_message}
use g_manager.Messages.Laws.{refusal, reservation_api_error_message_translates}

-- Each message of a table alone is shown as its translation.
abbrev translates : (Cause → String) → Dict String → Bool
translates show messages =
    all (λ (message, translation). show (refusal 400 message none) === translation) messages

waitlist_translates : translates (λ c. waitlist_error c "") translations ≡ true
unfolding waitlist_error
waitlist_translates = refl

settings_translates : translates (λ c. settings_error c "") translated ≡ true
unfolding settings_error
settings_translates = refl

station_translates : translates (λ c. station_error c "") station_messages ≡ true
unfolding station_error
station_translates = refl

orders_translate : translates (λ c. order_error_message c "") order_messages ≡ true
unfolding order_error_message
orders_translate = refl

own_text : settings_error (failure "Datum nije validan.") "" ≡ "Datum nije validan."
unfolding settings_error
own_text = refl

reservation_api_error_message_translates_example :
    reservation_api_error_message (refusal 409 "Location is inactive" (some "r7")) "Greška."
    ≡ "Lokacija nije aktivna." ++ (advice 409 ++ id_note (some "r7"))
unfolding lookup
reservation_api_error_message_translates_example =
    reservation_api_error_message_translates "Location is inactive" "Lokacija nije aktivna." 409
      (some "r7") "Greška." refl refl
